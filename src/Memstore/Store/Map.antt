-- ===== src/Memstore/Store/Map.antt =====
-- The store as a map: what Put, Get, Delete and Close do to an idle database.
use baud.Base.{
  ◌≡◌, refl, ap, ◌∙◌, Option, none, some, [], ◌∷◌, arith, ret, ==_iff, Option-cases, inl, inr,
}
use baud.Base.Bytes.{Bytes, bytes_eq}
use baud.Memstore.Tree.{BTree, IsBTree}
use baud.Memstore.Db.{Error, not_found, Db, begin}
use baud.Memstore.View.{at, contents}
use baud.Memstore.Tx.{get, rollback, managed, finish}
use baud.Memstore.Tx.Script.{put, del, write, run, step, set-writing, delete_reply}
use baud.Memstore.Tx.Managed.{
  IsIdle, outcome_contents, started, fresh_context, started-IsWriting, update_local, update_atomic,
}
use baud.Memstore.Store
use baud.Memstore.Store.{put_fn, delete_fn, get_fn, read_in, error_of}

module _ {V : Type 0} (bt : BTree V) where
  -- The error of a read or a deletion.
  abbrev pub missing : Option (Option V) → Option Error
  missing none = some not_found
  missing (some v) = none

  abbrev pub found : Option (Option V) → Option V
  found none = none
  found (some v) = v

  module _ (laws : IsBTree bt) (db : Db bt) (t : bt.Tree) (idle : IsIdle bt db t) where
    put_fn-started :
        (k : Bytes) (v : Option V)
        → put_fn bt k v (started bt db) ≡ (ret none, run bt (put k v ∷ []) (started bt db))
    unfolding run step
    put_fn-started k v = ground (
      arith,
      set-writing bt k v (started bt db) t (fresh_context bt) (started-IsWriting bt db t idle),
    )

    -- Put on an idle open database does not wait and reports no error; the key then holds the
    -- value, every other key what it held, and the database is idle and open.
    pub put_refines :
        (k : Bytes) (v : Option V)
        → (db' : Db bt) × (Store.put bt k v (some db) ≡ some (ret none, some db'))
          × ((j : Bytes) → contents bt db' j ≡ write (put k v) (contents bt db) j)
          × (t' : bt.Tree) × IsIdle bt db' t'
    unfolding Store.put
    put_refines k v =
        let (db', e, c, t', i) = update_atomic bt laws db t (put k v ∷ []) none idle tt in
        (
          db',
          ap (Store.in_store bt) (
              update_local bt db t (put_fn bt k v) (λ s. (ret none, run bt (put k v ∷ []) s)) idle
                (put_fn-started k v)
              ∙ e),
          c,
          t',
          i,
        )

    delete_fn-started :
        (k : Bytes)
        → delete_fn bt k (started bt db)
          ≡ (ret (missing (contents bt db k)), run bt (del k ∷ []) (started bt db))
    unfolding run step
    delete_fn-started k = elim (Option-cases (at bt t k)) [
      | inl e ↦ ground (
        arith,
        e,
        delete_reply bt laws k (started bt db) t (fresh_context bt)
            (started-IsWriting bt db t idle),
      )
      | inr e ↦ ground (
        arith,
        e.1,
        delete_reply bt laws k (started bt db) t (fresh_context bt)
            (started-IsWriting bt db t idle),
      )
    ]

    -- A deletion that fails finds nothing to restore.
    delete_contents :
        (k j : Bytes) (o : Option (Option V))
        → contents bt db k ≡ o
        → outcome_contents bt (missing o) (del k ∷ []) (contents bt db) j
          ≡ write (del k) (contents bt db) j
    delete_contents k j none e = ground (arith, ==_iff k j)
    delete_contents k j (some v) e = refl

    -- Delete on an idle open database does not wait; it reports that the key is not found exactly
    -- when it held nothing. The key then holds nothing, every other key what it held, and the
    -- database is idle and open.
    pub delete_refines :
        (k : Bytes)
        → (db' : Db bt) × (Store.delete_key bt k (some db)
            ≡ some (ret (missing (contents bt db k)), some db'))
          × ((j : Bytes) → contents bt db' j ≡ write (del k) (contents bt db) j)
          × (t' : bt.Tree) × IsIdle bt db' t'
    unfolding Store.delete_key
    delete_refines k =
        let final = missing (contents bt db k) in
        let (db', e, c, t', i) = update_atomic bt laws db t (del k ∷ []) final idle (tt, tt) in
        (
          db',
          ap (Store.in_store bt) (
              update_local bt db t (delete_fn bt k) (λ s. (ret final, run bt (del k ∷ []) s)) idle
                (delete_fn-started k)
              ∙ e),
          λ j. c j ∙ delete_contents k j (contents bt db k) refl,
          t',
          i,
        )

    -- Get on an idle open database does not wait; it returns the value of the key and no error, or
    -- nil and that the key is not found, and leaves the database as it was.
    pub get_refines :
        (k : Bytes)
        → Store.get_value bt k (some db)
          ≡ some (ret (found (contents bt db k), missing (contents bt db k)), some db)
    unfolding Store.get_value get begin managed finish rollback
    get_refines k = elim (Option-cases (at bt t k)) [
      | inl e ↦ ground (arith, e)
      | inr e ↦ ground (arith, e.1)
    ]
