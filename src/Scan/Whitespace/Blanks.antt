-- ===== src/Scan/Whitespace/Blanks.antt =====
-- The byte loop over white space (crates/core/src/simd_scan.rs), and the lanes of one block.
use pg_plansight.Prelude.{
  ℕ, zero, suc, ◌+◌, ◌-◌, ◌≤◌, ◌<◌, ◌≡◌, refl, ap, ◌∙◌, Bool, true, false, ◌||◌, none, some, List,
  [], ◌∷◌, map, arith, leb, ◌==◌, if◌then◌else◌, length, take, drop, replicate,
}
use pg_plansight.Scan.Verdict.{matched, unsure, Simd, block, is_ascii, wrapping_sub, zip_with}
use pg_plansight.Scan.Masks.{index_false}
use pg_plansight.Scan.Timestamp.{byte_at}
use pg_plansight.Scan.Whitespace.{is_ascii_ws, scan_ws, leading_whitespace_scalar, shift, ws_lanes}

-- The first `n` bytes are white space.
abbrev pub Blank : List ℕ → ℕ → Type 0
Blank line n = (i : ℕ) → i < n → is_ascii_ws (byte_at line i) ≡ true

pub byte_at-drop : (line : List ℕ) (k i : ℕ) → byte_at (drop k line) i ≡ byte_at line (k + i)
byte_at-drop line zero i = ap (byte_at line) (omega arith)
byte_at-drop [] (suc k) i = refl
byte_at-drop (b ∷ bs) (suc k) i = rw (suc_add k i) (byte_at-drop bs k i)
  where
    suc_add : (k i : ℕ) → suc k + i ≡ suc (k + i)
    suc_add k i = omega arith

pub byte_at-take : (bs : List ℕ) (n i : ℕ) → i < n → byte_at (take n bs) i ≡ byte_at bs i
byte_at-take bs zero i h = absurd (omega arith)
byte_at-take [] (suc n) i h = refl
byte_at-take (b ∷ bs) (suc n) zero h = refl
byte_at-take (b ∷ bs) (suc n) (suc i) h = byte_at-take bs n i (omega arith)

pub drop-byte_at :
    (line : List ℕ) (k : ℕ) → k < length line → drop k line ≡ byte_at line k ∷ drop (suc k) line
drop-byte_at [] k h = absurd (omega arith)
drop-byte_at (b ∷ bs) zero h = refl
drop-byte_at (b ∷ bs) (suc k) h = drop-byte_at bs k (omega arith)

-- The scalar loop passes over white space.
pub scan_ws-skip :
    (line : List ℕ) (k i : ℕ)
    → Blank line k
    → k ≤ length line
    → scan_ws line i ≡ scan_ws (drop k line) (i + k)
scan_ws-skip line zero i w h = ap (scan_ws line) (omega arith)
scan_ws-skip [] (suc k) i w h = absurd (omega arith)
scan_ws-skip (b ∷ bs) (suc k) i w h = rw (w 0 (omega arith)) (
    scan_ws-skip bs k (i + 1) (λ j l. w (suc j) (omega arith)) (omega arith)
    ∙ ap (scan_ws (drop k bs)) (omega arith))

-- The scalar loop stops at the first byte that is not white space.
pub scan_ws-stop :
    (line : List ℕ) (k : ℕ)
    → Blank line k
    → k < length line
    → is_ascii_ws (byte_at line k) ≡ false
    → leading_whitespace_scalar line ≡ (if is_ascii (byte_at line k) then matched k else unsure)
unfolding leading_whitespace_scalar
scan_ws-stop line k w h stop =
    scan_ws-skip line k 0 w (omega arith)
    ∙ rw (drop-byte_at line k h, stop)
        (ap (λ n. if is_ascii (byte_at line k) then matched n else unsure) (omega arith))

pub scan_ws-shift : (bs : List ℕ) (i j : ℕ) → scan_ws bs (i + j) ≡ shift i (scan_ws bs j)
scan_ws-shift [] i j = refl
scan_ws-shift (b ∷ bs) i j = ground (arith, scan_ws-shift bs i (j + 1), add_assoc i j 1)
  where
    add_assoc : (a b c : ℕ) → a + b + c ≡ a + (b + c)
    add_assoc a b c = omega arith

zip_ws :
    (bs : List ℕ)
    → zip_with ◌||◌ (zip_with ◌==◌ bs (replicate (length bs) 0x20)) (
        zip_with leb
          (zip_with wrapping_sub bs (replicate (length bs) 0x09))
          (replicate (length bs) (0x0D - 0x09)))
      ≡ map is_ascii_ws bs
unfolding zip_with replicate
zip_ws [] = refl
zip_ws (b ∷ bs) = ap (◌∷◌ (is_ascii_ws b)) (zip_ws bs)

pub bits-ws_lanes :
    (s : Simd) (chunk : List ℕ)
    → length chunk ≡ block
    → s.bits (ws_lanes s chunk) ≡ map is_ascii_ws chunk
unfolding ws_lanes
bits-ws_lanes s chunk h =
    rw
      (
        s.bits-or,
        s.bits-eq,
        s.bits-le,
        s.lanes-sub,
        s.lanes-splat 0x20,
        s.lanes-splat 0x09,
        s.lanes-splat (0x0D - 0x09),
        s.lanes-from_slice chunk h,
      )
      (rw h at (zip_ws chunk))

pub index_map-none :
    (p : ℕ → Bool) (bs : List ℕ)
    → index_false (map p bs) ≡ none
    → (i : ℕ) → i < length bs
    → p (byte_at bs i) ≡ true
index_map-none p [] e i h = absurd (omega arith)
index_map-none p (b ∷ bs) e zero h = ground arith
index_map-none p (b ∷ bs) e (suc i) h = index_map-none p bs (ground arith) i (omega arith)

pub index_map-some :
    (p : ℕ → Bool) (bs : List ℕ) (k : ℕ)
    → index_false (map p bs) ≡ some k
    → (k < length bs) × (p (byte_at bs k) ≡ false) × ((i : ℕ) → i < k → p (byte_at bs i) ≡ true)
index_map-some p [] k e = absurd (no_lane e)
  where
    no_lane : none ≡ some k → ⊥
    no_lane e = cc
index_map-some p (b ∷ bs) zero e = (omega arith, ground arith, λ i h. absurd (omega arith))
index_map-some p (b ∷ bs) (suc k) e =
    let found : index_false (map p bs) ≡ some k = ground arith in
    let (l, stop, before) = index_map-some p bs k found in
    (omega arith, stop, λ i. earlier i before)
  where
    earlier :
        (i : ℕ)
        → ((i : ℕ) → i < k → p (byte_at bs i) ≡ true)
        → i < suc k
        → p (byte_at (b ∷ bs) i) ≡ true
    earlier zero before h = ground arith
    earlier (suc i) before h = before i (omega arith)
