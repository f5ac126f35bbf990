-- ===== src/Memstore/Tx/Track.antt =====
-- A whole run of writes: the transaction stays open, the tree takes every write, and the rollback
-- map keeps what the tree held at first.
use baud.Base.{◌≡◌, refl, ◌∙◌, Option, none, some, List, [], ◌∷◌, arith, ==_iff}
use baud.Base.Bytes.{Bytes, bytes_eq}
use baud.Base.Assoc.{lookup, KeysDistinct}
use baud.Memstore.Item.{DbItem}
use baud.Memstore.Tree.{BTree, IsBTree}
use baud.Memstore.Db.{WriteContext, State, key_item}
use baud.Memstore.View.{Contents, at, value_of, at-key, at-replace, at-delete}
use baud.Memstore.Tx.Undo.{IsKeyed}
use baud.Memstore.Tx.Script.{
  Write, put, del, write, write_all, NoPutAfterDel, step, run, IsWriting, put_item, step_tree,
  step_context, step-IsWriting, step_frame,
}
use baud.Memstore.Tx.Remember.{Remembers, step-Remembers}

IsKeyed-of_lookup :
    {V : Type 0} (bt : BTree V) (m : List (Bytes × Option (DbItem V)))
    → KeysDistinct m
    → ((k : Bytes) (i : DbItem V) → lookup k m ≡ some (some i) → i.key ≡ k)
    → IsKeyed bt m
unfolding lookup
IsKeyed-of_lookup bt [] d h = tt
IsKeyed-of_lookup bt ((k, none) ∷ m) d h =
    IsKeyed-of_lookup bt m d.1 λ j i e. h j i (ground (arith, ==_iff k j))
IsKeyed-of_lookup bt ((k, some x) ∷ m) d h = (
  h k x (ground (arith, ==_iff k k)),
  IsKeyed-of_lookup bt m d.1 λ j i e. h j i (ground (arith, ==_iff k j)),
)

module _ {V : Type 0} (bt : BTree V) where
  -- The tree and the write context that a run ends with.
  abbrev pub run_tree : List (Write V) → bt.Tree → bt.Tree
  run_tree [] t = t
  run_tree (o ∷ ws) t = run_tree ws (step_tree bt o t)

  abbrev pub run_context : List (Write V) → bt.Tree → WriteContext bt → WriteContext bt
  run_context [] t w = w
  run_context (o ∷ ws) t w = run_context ws (step_tree bt o t) (step_context bt o t w)

  pub run-IsWriting :
      (ws : List (Write V)) (s : State bt) (t : bt.Tree) (w : WriteContext bt)
      → IsWriting bt s t w
      → IsWriting bt (run bt ws s) (run_tree ws t) (run_context ws t w)
  unfolding run
  run-IsWriting [] s t w h = h
  run-IsWriting (o ∷ ws) s t w h =
      run-IsWriting ws (step bt o s) (step_tree bt o t) (step_context bt o t w)
        (step-IsWriting bt o s t w h)

  pub run_frame :
      (ws : List (Write V)) (s : State bt) (t : bt.Tree) (w : WriteContext bt)
      → IsWriting bt s t w
      → ((run bt ws s).db.mu ≡ s.db.mu)
        × ((run bt ws s).db.closed ≡ s.db.closed)
        × ((run bt ws s).tx.funcd ≡ s.tx.funcd)
  unfolding run
  run_frame [] s t w h = (refl, refl, refl)
  run_frame (o ∷ ws) s t w h = ground (
    arith,
    step_frame bt o s t w h,
    run_frame ws (step bt o s) (step_tree bt o t) (step_context bt o t w)
        (step-IsWriting bt o s t w h),
  )

  module _ (laws : IsBTree bt) where
    pub value-step :
        (o : Write V) (t : bt.Tree) (k : Bytes)
        → value_of bt (at bt (step_tree bt o t) k) ≡ write o (λ j. value_of bt (at bt t j)) k
    value-step (put j v) t k = ground (arith, at-replace bt laws t (put_item bt j v) k)
    value-step (del j) t k = ground (arith, at-delete bt laws t (key_item bt j) k)

    pub write_all_ext :
        (ws : List (Write V)) (c d : Contents V)
        → ((k : Bytes) → c k ≡ d k)
        → (k : Bytes) → write_all ws c k ≡ write_all ws d k
    write_all_ext [] c d h k = h k
    write_all_ext (put j v ∷ ws) c d h k =
        write_all_ext ws (write (put j v) c) (write (put j v) d) (λ i. ground (arith, h i)) k
    write_all_ext (del j ∷ ws) c d h k =
        write_all_ext ws (write (del j) c) (write (del j) d) (λ i. ground (arith, h i)) k

    pub value-run :
        (ws : List (Write V)) (t : bt.Tree) (k : Bytes)
        → value_of bt (at bt (run_tree ws t) k) ≡ write_all ws (λ j. value_of bt (at bt t j)) k
    value-run [] t k = refl
    value-run (o ∷ ws) t k =
        value-run ws (step_tree bt o t) k
        ∙ write_all_ext ws (λ j. value_of bt (at bt (step_tree bt o t) j))
            (write o (λ j. value_of bt (at bt t j))) (λ j. value-step o t j) k

    pub run-Remembers :
        (t0 : bt.Tree) (ws : List (Write V)) (s : State bt) (t : bt.Tree) (w : WriteContext bt)
        → IsWriting bt s t w
        → NoPutAfterDel ws
        → Remembers bt t0 ws t w
        → Remembers bt t0 [] (run_tree ws t) (run_context ws t w)
    run-Remembers t0 [] s t w h safe r = r
    run-Remembers t0 (put k v ∷ ws) s t w h safe r =
        run-Remembers t0 ws (step bt (put k v) s) (step_tree bt (put k v) t)
          (step_context bt (put k v) t w) (step-IsWriting bt (put k v) s t w h) safe
          (step-Remembers bt t0 laws t w h.no_rb_keys (put k v) ws safe r)
    run-Remembers t0 (del k ∷ ws) s t w h safe r =
        run-Remembers t0 ws (step bt (del k) s) (step_tree bt (del k) t)
          (step_context bt (del k) t w) (step-IsWriting bt (del k) s t w h) safe.1
          (step-Remembers bt t0 laws t w h.no_rb_keys (del k) ws safe r)

    pub Remembers-IsKeyed :
        (t0 t : bt.Tree) (w : WriteContext bt) (ws : List (Write V))
        → Remembers bt t0 ws t w
        → IsKeyed bt w.rollback_items
    Remembers-IsKeyed t0 t w ws r =
        IsKeyed-of_lookup bt w.rollback_items r.distinct
          λ k i e. at-key bt laws t0 k i (ground (arith, r.agrees k))
