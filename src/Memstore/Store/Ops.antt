-- ===== src/Memstore/Store/Ops.antt =====
-- The operations of a batch against the same writes on a map.
use mathlib.Core.Path.{fun_ext}
use baud.Base.{
  ◌≡◌, refl, ap, ◌∙◌, Option, none, some, List, [], ◌∷◌, arith, ret, Option-cases, inl, inr,
}
use baud.Base.Bytes.{Bytes, bytes_eq}
use baud.Memstore.Tree.{BTree, IsBTree}
use baud.Memstore.Db.{Error, not_found, WriteContext, State}
use baud.Memstore.View.{Contents, at, value_of}
use baud.Memstore.Tx.Script.{
  Write, put, del, write, NeverPut, NoPutAfterDel, run, step, IsWriting, set-writing, delete_reply,
  step-IsWriting, step_tree, step_context,
}
use baud.Memstore.Tx.Track.{value-step}
use baud.Memstore.Batch.{Operation}
use baud.Memstore.Store.{execute_op, execute_ops}

module _ {V : Type 0} where
  abbrev pub op_write : Operation V → Write V
  op_write op = elim op.value [ some v ↦ put op.key (some v) | none ↦ del op.key ]

  -- A deletion of a key that holds nothing is refused.
  abbrev pub refused : Write V → Contents V → Option Error
  refused (put k v) c = none
  refused (del k) c = elim (c k) [ none ↦ some not_found | some v ↦ none ]

  -- The first refusal of a batch on a map, and the writes up to it.
  abbrev pub batch_error : List (Operation V) → Contents V → Option Error
  batch_error [] c = none
  batch_error (op ∷ ops) c =
      let rest = batch_error ops (write (op_write op) c) in
      elim (refused (op_write op) c) [ none ↦ rest | some e ↦ some e ]

  abbrev pub writes_until : List (Operation V) → Contents V → List (Write V)
  writes_until [] c = []
  writes_until (op ∷ ops) c =
      let rest = writes_until ops (write (op_write op) c) in
      op_write op ∷ elim (refused (op_write op) c) [ none ↦ rest | some e ↦ [] ]

  abbrev pub op_writes : List (Operation V) → List (Write V)
  op_writes [] = []
  op_writes (op ∷ ops) = op_write op ∷ op_writes ops

  pub NeverPut-until :
      (k : Bytes) (ops : List (Operation V)) (c : Contents V)
      → NeverPut k (op_writes ops)
      → NeverPut k (writes_until ops c)
  NeverPut-until k [] c h = tt
  NeverPut-until k (op ∷ ops) c h = ground (arith, NeverPut-until k ops (write (op_write op) c))

  pub NoPutAfterDel-until :
      (ops : List (Operation V)) (c : Contents V)
      → NoPutAfterDel (op_writes ops)
      → NoPutAfterDel (writes_until ops c)
  NoPutAfterDel-until [] c h = tt
  NoPutAfterDel-until (op ∷ ops) c h = ground (
    arith,
    NoPutAfterDel-until ops (write (op_write op) c),
    NeverPut-until op.key ops (write (op_write op) c),
  )

  pub writes_until_accepted :
      (ops : List (Operation V)) (c : Contents V)
      → batch_error ops c ≡ none
      → writes_until ops c ≡ op_writes ops
  writes_until_accepted [] c h = refl
  writes_until_accepted (op ∷ ops) c h =
      ground (arith, writes_until_accepted ops (write (op_write op) c))

  batch_goes_on :
      (op : Operation V) (ops : List (Operation V)) (c : Contents V)
      → refused (op_write op) c ≡ none
      → (batch_error (op ∷ ops) c ≡ batch_error ops (write (op_write op) c))
        × (writes_until (op ∷ ops) c ≡ op_write op ∷ writes_until ops (write (op_write op) c))
  batch_goes_on op ops c h = (rw (h, batch_error) refl, rw (h, writes_until) refl)

  batch_stops :
      (op : Operation V) (ops : List (Operation V)) (c : Contents V) (e : Error)
      → refused (op_write op) c ≡ some e
      → (batch_error (op ∷ ops) c ≡ some e) × (writes_until (op ∷ ops) c ≡ op_write op ∷ [])
  batch_stops op ops c e h = (rw (h, batch_error) refl, rw (h, writes_until) refl)

module _ {V : Type 0} (bt : BTree V) where
  abbrev pub tree_contents : bt.Tree → Contents V
  tree_contents t k = value_of bt (at bt t k)

  ops_go_on :
      (op : Operation V) (ops : List (Operation V)) (s s' : State bt)
      → execute_op bt op s ≡ (ret none, s')
      → execute_ops bt (op ∷ ops) s ≡ execute_ops bt ops s'
  unfolding execute_ops
  ops_go_on op ops s s' h = ground arith

  ops_stop :
      (op : Operation V) (ops : List (Operation V)) (s s' : State bt) (e : Error)
      → execute_op bt op s ≡ (ret (some e), s')
      → execute_ops bt (op ∷ ops) s ≡ (ret (some e), s')
  unfolding execute_ops
  ops_stop op ops s s' e h = ground arith

  module _ (laws : IsBTree bt) where
    execute_op-step :
        (op : Operation V) (s : State bt) (t : bt.Tree) (w : WriteContext bt)
        → IsWriting bt s t w
        → execute_op bt op s
          ≡ (ret (refused (op_write op) (tree_contents t)), step bt (op_write op) s)
    unfolding execute_op step
    execute_op-step op s t w h = elim (Option-cases op.value) [
      | inl e ↦ elim (Option-cases (at bt t op.key)) [
        | inl n ↦ ground (arith, e, n, delete_reply bt laws op.key s t w h)
        | inr n ↦ ground (arith, e, n.1, delete_reply bt laws op.key s t w h)
      ]
      | inr e ↦ ground (arith, e.1, set-writing bt op.key (some e.0) s t w h)
    ]

    contents_step :
        (o : Write V) (t : bt.Tree) → tree_contents (step_tree bt o t) ≡ write o (tree_contents t)
    contents_step o t = fun_ext (value-step bt laws o t)

    pub execute_ops-run :
        (ops : List (Operation V)) (s : State bt) (t : bt.Tree) (w : WriteContext bt)
        → IsWriting bt s t w
        → execute_ops bt ops s
          ≡ (ret (batch_error ops (tree_contents t)), run bt (writes_until ops (tree_contents t)) s)
    unfolding run
    execute_ops-run [] s t w h = unfold execute_ops in refl
    execute_ops-run (op ∷ ops) s t w h =
        let o = op_write op in
        let c = tree_contents t in
        let later =
          execute_ops-run ops (step bt o s) (step_tree bt o t) (step_context bt o t w)
            (step-IsWriting bt o s t w h) in
        let here = execute_op-step op s t w h in
        elim (Option-cases (refused o c)) [
          | inl e ↦
              rw
                (
                  ops_go_on op ops s (step bt o s) (here ∙ ap (λ r. (ret r, step bt o s)) e),
                  later,
                  contents_step o t,
                  (batch_goes_on op ops c e).0,
                  (batch_goes_on op ops c e).1,
                )
                refl
          | inr (x, e) ↦
              rw
                (
                  ops_stop op ops s (step bt o s) x (here ∙ ap (λ r. (ret r, step bt o s)) e),
                  (batch_stops op ops c x e).0,
                  (batch_stops op ops c x e).1,
                )
                refl
        ]
