-- ===== src/World/Tally.antt =====
-- How often a resource occurs among the terms that were copied to the msg_envs of the futures
-- (`enif_make_copy` in erlfdb_create_future of c_src/main.c).
use erlfdb.Base.{
  ℕ, zero, suc, ◌+◌, ◌≤◌, ◌<◌, ◌≡◌, refl, ap, true, false, inl, inr, Option, none, some,
  if◌then◌else◌, ◌==◌, ==_iff, Bool-cases, arith,
}
use erlfdb.World.{update}

unfoldable pub one : Option ℕ → ℕ → ℕ
one none j = 0
one (some i) j = if i == j then 1 else 0

-- Among the copies of the first `n` futures.
unfoldable pub tally : (ℕ → Option ℕ) → ℕ → ℕ → ℕ
tally copies zero j = 0
tally copies (suc n) j = tally copies n j + one (copies n) j

pub tally_suc :
    (copies : ℕ → Option ℕ) (n j : ℕ) → tally copies (n + 1) j ≡ tally copies n j + one (copies n) j
unfolding tally
tally_suc copies n j = let e : n + 1 ≡ suc n = omega arith in ap (λ m. tally copies m j) e

tally-beyond :
    (copies : ℕ → Option ℕ) (i : ℕ) (o : Option ℕ) (n j : ℕ)
    → n ≤ i
    → tally (update copies i o) n j ≡ tally copies n j
unfolding tally
tally-beyond copies i o zero j le = refl
tally-beyond copies i o (suc n) j le =
    let ih = tally-beyond copies i o n j (omega (arith, le)) in
    elim (Bool-cases (i == n)) [
      | inl same ↦ absurd (omega (arith, (==_iff i n).0 same, le))
      | inr other ↦ rw other (omega (arith, ih))
    ]

pub tally-update :
    (copies : ℕ → Option ℕ) (i : ℕ) (o : Option ℕ) (n j : ℕ)
    → i < n
    → tally (update copies i o) n j + one (copies i) j ≡ tally copies n j + one o j
unfolding tally
tally-update copies i o zero j le = absurd (omega (arith, le))
tally-update copies i o (suc n) j le = elim (Bool-cases (i == n)) [
  | inl same ↦
      let p : i ≡ n = (==_iff i n).0 same in
      let q : one (copies i) j ≡ one (copies n) j = ap (λ m. one (copies m) j) p in
      let b = tally-beyond copies i o n j (omega (arith, p)) in rw same (omega (arith, b, q))
  | inr other ↦
      let n_is : i ≡ n → ⊥ = (λ p. absurd (cc (other, (==_iff i n).1 p))) in
      let ih = tally-update copies i o n j (ground (arith, le, n_is)) in
      rw other (omega (arith, ih))
]

pub one_self : (j : ℕ) → one (some j) j ≡ 1
unfolding one
one_self j = let e : (j == j) ≡ true = (==_iff j j).1 refl in rw e refl

pub one_other : (i j : ℕ) → (i == j) ≡ false → one (some i) j ≡ 0
unfolding one
one_other i j e = rw e refl

pub one-none : (j : ℕ) → one none j ≡ 0
unfolding one
one-none j = refl
