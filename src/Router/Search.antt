-- ===== src/Router/Search.antt =====
-- `sort.Search`, the binary search that router/model_space.go calls.
use baud.Base.{
  ℕ, zero, suc, ◌+◌, ◌/◌, ◌≡◌, ◌≤◌, ◌<◌, Bool, true, false, Bool-cases, inl, inr, ltb, arith,
}

-- The loop, for at most `fuel` rounds: the range `i` to `j` shrinks in each.
unfoldable search_loop : ℕ → (ℕ → Bool) → ℕ → ℕ → ℕ
search_loop zero f i j = i
search_loop (suc fuel) f i j = elim (ltb i j) [
  | false ↦ i
  | true ↦ elim (f ((i + j) / 2)) [
    | true ↦ search_loop fuel f i ((i + j) / 2)
    | false ↦ search_loop fuel f (suc ((i + j) / 2)) j
  ]
]

unfoldable pub search : ℕ → (ℕ → Bool) → ℕ
unfolding search_loop
search n f = search_loop n f 0 n

-- The first number below `n` that passes the test, or `n`.
pub record IsFirst (n : ℕ) (f : ℕ → Bool) (p : ℕ) : Type 0 where
  pub bounded : p ≤ n
  pub before : (a : ℕ) → a < p → f a ≡ false
  pub passes : p < n → f p ≡ true

module _ (n : ℕ) (f : ℕ → Bool) where
  pub IsFirst-unique : (p q : ℕ) → IsFirst n f p → IsFirst n f q → p ≡ q
  IsFirst-unique p q a b =
      ground (arith, a.bounded, b.bounded, a.before q, b.before p, a.passes, b.passes)

  module _ (monotone : (a b : ℕ) → a ≤ b → b < n → f a ≡ true → f b ≡ true) where
    search_loop-IsFirst :
        (fuel i j : ℕ)
        → i ≤ j
        → j ≤ n
        → j ≤ i + fuel
        → ((a : ℕ) → a < i → f a ≡ false)
        → (j < n → f j ≡ true)
        → IsFirst n f (search_loop fuel f i j)
    unfolding search_loop
    search_loop-IsFirst zero i j h k l before passes =
        let e : i ≡ j = omega arith in
        record { bounded = omega arith; before = before; passes = rw e passes }
    search_loop-IsFirst (suc fuel) i j h k l before passes = elim (Bool-cases (ltb i j)) [
      | inr done ↦
          let e : i ≡ j = ground (arith, done) in
          rw (search_loop, done)
            (record { bounded = omega arith; before = before; passes = rw e passes })
      | inl more ↦
          let mid = (i + j) / 2 in
          let less : i < j = ground (arith, more) in
          let low : i ≤ mid = omega arith in
          let high : mid < j = omega arith in
          elim (Bool-cases (f mid)) [
            | inl here ↦
                rw (search_loop, more, here)
                  (search_loop-IsFirst fuel i mid low (omega arith) (omega arith) before
                    (λ q. here))
            | inr past ↦
                rw (search_loop, more, past)
                  (search_loop-IsFirst fuel (suc mid) j (omega arith) k (omega arith)
                    (λ a q. elim (Bool-cases (f a)) [
                      | inr e ↦ e
                      | inl e ↦ ground (arith, monotone a mid (omega arith) (omega arith) e, past)
                    ])
                    passes)
          ]
    ]

    -- A test that stays passed: the search finds the first number that passes it.
    pub search-IsFirst : IsFirst n f (search n f)
    unfolding search
    search-IsFirst =
        search_loop-IsFirst n 0 n (omega arith) (omega arith) (omega arith)
          (λ a q. absurd (omega arith)) (λ q. absurd (omega arith))
