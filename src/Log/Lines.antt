-- ===== src/Log/Lines.antt =====
-- How the read loop of crates/core/src/log_parser.rs cuts a file that is put together of two.
use pg_plansight.Prelude.{
  ℕ, zero, suc, ◌≡◌, refl, sym, ap, ◌∙◌, ◌≢◌, inl, inr, Bool, true, false, ◌&&◌, not, List, [], ◌∷◌,
  ◌++◌, ◌==◌, Bool-cases, &&_true, length,
}
use mathlib.Core.Bool.{true≢false}
use pg_plansight.Log.Builders.{newline}
use pg_plansight.Log.Reader.{read_until, skip_line, ends_line, cut_line, read_line}

-- Nothing, or whole lines.
abbrev pub is_closed : List ℕ → Bool
is_closed [] = true
is_closed (b ∷ bytes) = ends_line (b ∷ bytes)

closed_tail : (b : ℕ) (bytes : List ℕ) → ends_line (b ∷ bytes) ≡ true → is_closed bytes ≡ true
closed_tail b [] h = refl
closed_tail b (c ∷ bytes) h = h

ends-tail :
    (b : ℕ) (bytes : List ℕ)
    → ends_line (b ∷ bytes) ≡ true
    → (b == newline) ≡ false
    → ends_line bytes ≡ true
ends-tail b [] h other = absurd (true≢false (sym h ∙ other))
ends-tail b (c ∷ bytes) h other = h

-- A line of the first part is cut as it is without the second.
record CutFirst (n : ℕ) (xs ys : List ℕ) : Type 0 where
  pub same : read_until n (xs ++ ys) ≡ ((read_until n xs).0, (read_until n xs).1 ++ ys)
  pub rest : is_closed (read_until n xs).1 ≡ true
  pub last : (read_until n xs).1 ≡ [] → ends_line (read_until n xs).0 ≡ true

cons-ends : (b : ℕ) (line : List ℕ) → ends_line line ≡ true → ends_line (b ∷ line) ≡ true
cons-ends b [] h = absurd (true≢false (sym h))
cons-ends b (c ∷ line) h = h

closed-ends : (xs : List ℕ) → ends_line xs ≡ true → is_closed xs ≡ true
closed-ends [] h = refl
closed-ends (b ∷ xs) h = h

nil-ends : (xs : List ℕ) → ends_line xs ≡ true → xs ≢ []
nil-ends [] h e = true≢false (sym h)
nil-ends (b ∷ xs) h e = cc

read_until-CutFirst : (n : ℕ) (xs ys : List ℕ) → ends_line xs ≡ true → CutFirst n xs ys
unfolding read_until
read_until-CutFirst zero xs ys h = record {
  same = refl;
  rest = closed-ends xs h;
  last = λ e. absurd (nil-ends xs h e);
}
read_until-CutFirst (suc n) [] ys h = absurd (true≢false (sym h))
read_until-CutFirst (suc n) (b ∷ xs) ys h = elim (Bool-cases (b == newline)) [
  | inl e ↦ record { same = rw e refl; rest = rw e (closed_tail b xs h); last = λ f. rw e e }
  | inr e ↦
      let ih = read_until-CutFirst n xs ys (ends-tail b xs h e) in
      record {
        same = rw e (ap (λ p. (b ∷ p.0, p.1)) ih.same);
        rest = rw e ih.rest;
        last = rw e (λ f. cons-ends b (read_until n xs).0 (ih.last f));
      }
]

-- A closed rest, skipped to its first newline.
skip_line-append :
    (xs ys : List ℕ)
    → ends_line xs ≡ true
    → (skip_line (xs ++ ys) ≡ skip_line xs ++ ys) × (is_closed (skip_line xs) ≡ true)
unfolding skip_line
skip_line-append [] ys h = absurd (true≢false (sym h))
skip_line-append (b ∷ xs) ys h = elim (Bool-cases (b == newline)) [
  | inl e ↦ rw e (refl, closed_tail b xs h)
  | inr e ↦ rw e (skip_line-append xs ys (ends-tail b xs h e))
]

ends-closed : (xs : List ℕ) → is_closed xs ≡ true → xs ≢ [] → ends_line xs ≡ true
ends-closed [] h some_left = absurd (some_left refl)
ends-closed (b ∷ xs) h some_left = h

cut_line-append :
    (n : ℕ) (line rest ys : List ℕ)
    → is_closed rest ≡ true
    → (rest ≡ [] → ends_line line ≡ true)
    → (cut_line n (line, rest ++ ys)
        ≡ ((cut_line n (line, rest)).0, (cut_line n (line, rest)).1 ++ ys))
      × (is_closed (cut_line n (line, rest)).1 ≡ true)
cut_line-append n line rest ys closed last =
    elim (Bool-cases (length line == n && not (ends_line line))) [
      | inl e ↦
          let (full, open_line) = &&_true (length line == n) (not (ends_line line)) e in
          let some_left : rest ≢ [] = λ f. true≢false (sym open_line ∙ ap not (last f)) in
          let (same, skipped) = skip_line-append rest ys (ends-closed rest closed some_left) in
          rw e (ap (λ x. (line, x)) same, skipped)
      | inr e ↦ rw e (refl, closed)
    ]

-- A file that ends a line, put before another: its first line and what is left of it.
pub read_line-append :
    (n : ℕ) (xs ys : List ℕ)
    → ends_line xs ≡ true
    → (read_line n (xs ++ ys) ≡ ((read_line n xs).0, (read_line n xs).1 ++ ys))
      × (is_closed (read_line n xs).1 ≡ true)
unfolding read_line
read_line-append n xs ys h =
    let first = read_until-CutFirst n xs ys h in
    let (cut, closed) =
      cut_line-append n (read_until n xs).0 (read_until n xs).1 ys first.rest first.last in
    (ap (cut_line n) first.same ∙ cut, closed)
