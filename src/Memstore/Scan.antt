-- ===== src/Memstore/Scan.antt =====
-- engine/kernel/store/memstore/btreedb/btree.go: the iterations of a transaction.
-- A slice that may be nil is an option. The caller's `IterFunc` is a function of the key, the
-- value, its own memory and the state that the transaction works on; it may call the transaction's
-- methods, and it is taken not to panic.
pub mod Range
pub mod Bounds
use baud.Base.{
  ℕ, ◌+◌, ◌-◌, Bool, true, false, not, ◌||◌, Option, none, some, List, [], ◌∷◌, ltb, Outcome, ret,
  panic, ◌==◌, nat_eq, if◌then◌else◌,
}
use baud.Base.Bytes.{Bytes, bytes_eq, lt_bytes}
use baud.Memstore.Item.{DbItem, Item, db_item, less_item, greater_item}
use baud.Memstore.Tree.{BTree}
use baud.Memstore.Db.{Error, tx_closed, WriteContext, Tx, State}

abbrev pub Slice : Type 0
Slice = Option Bytes

-- A nil slice reads as an empty one.
abbrev pub bytes_of : Slice → Bytes
bytes_of none = []
bytes_of (some b) = b

-- util/match is the code of another project: its two functions are a parameter.
pub record Matcher : Type 0 where
  pub matches : Bytes → Bytes → Bool
  pub allowable : Bytes → Slice × Slice

abbrev pub start_item : {V : Type 0} → Slice → Item V
start_item none = less_item
start_item (some k) = db_item (record { key = k; value = none })

abbrev pub stop_item : {V : Type 0} → Slice → Item V
stop_item none = greater_item
stop_item (some k) = db_item (record { key = k; value = none })

module _ {V : Type 0} (bt : BTree V) where
  abbrev pub Reply : Type 0 → Type 0
  Reply A = Outcome (Option Error) × A × State bt

  abbrev pub IterFunc : Type 0 → Type 0
  IterFunc A = Bytes → Option V → A → State bt → Bool × A × State bt

  -- The traversal that `scan` chooses.
  unfoldable pub scan_items : Bool → Bool → Bool → Slice → Slice → bt.Tree → List (DbItem V)
  scan_items desc gt lt start stop t =
      if desc
      then (if gt
          then (if lt
              then bt.descend_range t (start_item start) (stop_item stop)
              else bt.descend_greater_than t (start_item start))
          else if lt
          then bt.descend_less_or_equal t (start_item start)
          else bt.descend t)
      else if gt
      then (if lt
          then bt.ascend_range t (start_item start) (stop_item stop)
          else bt.ascend_greater_or_equal t (start_item start))
      else if lt
      then bt.ascend_less_than t (start_item start)
      else bt.ascend t

  -- `iterCount++` and `iterCount--`, where there is a write context.
  abbrev pub count_up : State bt → State bt
  count_up s = elim s.tx.wc [
    | none ↦ s
    | some w ↦ record s {
      tx = record s.tx { wc = some (record w { iter_count = w.iter_count + 1 }) };
    }
  ]

  abbrev pub count_down : State bt → State bt
  count_down s = elim s.tx.wc [
    | none ↦ s
    | some w ↦ record s {
      tx = record s.tx { wc = some (record w { iter_count = w.iter_count - 1 }) };
    }
  ]

module _ {V A : Type 0} (bt : BTree V) where
  -- The tree calls the iterator on each item until it returns false.
  unfoldable pub each : List (DbItem V) → IterFunc bt A → A → State bt → A × State bt
  each [] f a s = (a, s)
  each (x ∷ xs) f a s =
      let r = f x.key x.value a s in elim r.0 [ true ↦ each xs f r.1 r.2 | false ↦ (r.1, r.2) ]

  -- A traversal of a nil tree panics; the deferred decrement runs all the same.
  unfoldable pub scan :
      Bool → Bool → Bool → Slice → Slice → IterFunc bt A → A → State bt → Reply bt A
  unfolding scan_items each
  scan desc gt lt start stop f a s =
      if not s.tx.db_open then (ret (some tx_closed), a, s) else elim s.db.keys [
        | none ↦ (panic, a, s)
        | some t ↦
            let r = each (scan_items bt desc gt lt start stop t) f a (count_up bt s) in
            (ret none, r.0, count_down bt r.1)
      ]

  unfoldable pub ascend : IterFunc bt A → A → State bt → Reply bt A
  unfolding scan
  ascend f a s = scan false false false none none f a s

  unfoldable pub ascend_greater_or_equal : Slice → IterFunc bt A → A → State bt → Reply bt A
  unfolding scan
  ascend_greater_or_equal pivot f a s = scan false true false pivot none f a s

  unfoldable pub ascend_less_than : Slice → IterFunc bt A → A → State bt → Reply bt A
  unfolding scan
  ascend_less_than pivot f a s = scan false false true pivot none f a s

  unfoldable pub ascend_range : Slice → Slice → IterFunc bt A → A → State bt → Reply bt A
  unfolding scan
  ascend_range greater_or_equal less_than f a s =
      scan false true true greater_or_equal less_than f a s

  unfoldable pub descend : IterFunc bt A → A → State bt → Reply bt A
  unfolding scan
  descend f a s = scan true false false none none f a s

  unfoldable pub descend_greater_than : Slice → IterFunc bt A → A → State bt → Reply bt A
  unfolding scan
  descend_greater_than pivot f a s = scan true true false pivot none f a s

  unfoldable pub descend_less_or_equal : Slice → IterFunc bt A → A → State bt → Reply bt A
  unfolding scan
  descend_less_or_equal pivot f a s = scan true false true pivot none f a s

  unfoldable pub descend_range : Slice → Slice → IterFunc bt A → A → State bt → Reply bt A
  unfolding scan
  descend_range less_or_equal greater_than f a s =
      scan true true true less_or_equal greater_than f a s

  -- The callbacks of `AscendEqual` and `DescendEqual`.
  abbrev pub while_equal : Slice → IterFunc bt A → IterFunc bt A
  while_equal pivot f k v a s = if k == bytes_of pivot then f k v a s else (false, a, s)

  unfoldable pub ascend_equal : Slice → IterFunc bt A → A → State bt → Reply bt A
  unfolding ascend_greater_or_equal
  ascend_equal pivot f a s = ascend_greater_or_equal pivot (while_equal pivot f) a s

  unfoldable pub descend_equal : Slice → IterFunc bt A → A → State bt → Reply bt A
  unfolding descend_less_or_equal
  descend_equal pivot f a s = descend_less_or_equal pivot (while_equal pivot f) a s

  -- `match.Match` before the caller's iterator: what does not match is passed over.
  abbrev pub if_matches : Matcher → Bytes → IterFunc bt A → IterFunc bt A
  if_matches m pattern f k v a s = if m.matches k pattern then f k v a s else (true, a, s)

  abbrev pub up_to : Slice → IterFunc bt A → IterFunc bt A
  up_to max f k v a s = if lt_bytes (bytes_of max) k then (false, a, s) else f k v a s

  abbrev pub down_to : Slice → IterFunc bt A → IterFunc bt A
  down_to min f k v a s = if lt_bytes k (bytes_of min) then (false, a, s) else f k v a s

  -- 42 is `*`.
  unfoldable pub ascend_keys : Matcher → Slice → IterFunc bt A → A → State bt → Reply bt A
  unfolding ascend ascend_greater_or_equal
  ascend_keys m none f a s = (ret none, a, s)
  ascend_keys m (some []) f a s = (ret none, a, s)
  ascend_keys m (some (c ∷ rest)) f a s =
      if c == 42
      then (if rest == [] then ascend f a s else ascend (if_matches m (c ∷ rest) f) a s)
      else (let (min, max) = m.allowable (c ∷ rest) in
          ascend_greater_or_equal min (up_to max (if_matches m (c ∷ rest) f)) a s)

  -- `pattern[0]` of an empty pattern that is not nil panics.
  unfoldable pub descend_keys : Matcher → Slice → IterFunc bt A → A → State bt → Reply bt A
  unfolding descend descend_less_or_equal
  descend_keys m none f a s = (ret none, a, s)
  descend_keys m (some []) f a s = (panic, a, s)
  descend_keys m (some (c ∷ rest)) f a s =
      if c == 42
      then (if rest == [] then descend f a s else descend (if_matches m (c ∷ rest) f) a s)
      else (let (min, max) = m.allowable (c ∷ rest) in
          descend_less_or_equal max (down_to min (if_matches m (c ∷ rest) f)) a s)
