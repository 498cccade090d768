-- ===== src/App/Video/Pixels.antt =====
-- The texture after the copy.
use neschan.Base.{
  ℕ, zero, suc, ◌+◌, ◌*◌, ◌<◌, ◌≤◌, ◌≡◌, refl, ◌∙◌, ap, arith, ltb, leb, ◌==◌, ◌&&◌, if◌then◌else◌,
  bit_and, ==_iff, inl, inr, Bool-cases, Bytes, update, Option, none, some, List, [], ◌∷◌,
}
use neschan.Base.Bits.{equal_below}
use neschan.Base.Table.{all_below}
use neschan.Base.Chain.{◌>>=◌}
use neschan.Base.Text.{length}
use neschan.App.Video.{palette, nth, copy_row, copy_rows, copy_frame}

abbrev known : Option ℕ → ℕ
known none = 0
known (some c) = c

-- The colour of a byte of the frame.
unfoldable pub colour : ℕ → ℕ
colour v = known (nth palette v)

nth-known : (xs : List ℕ) (k : ℕ) → k < length xs → nth xs k ≡ some (known (nth xs k))
unfolding length nth
nth-known [] k h = absurd (omega (arith, h))
nth-known (x ∷ xs) zero h = refl
nth-known (x ∷ xs) (suc k) h = nth-known xs k (omega (arith, h))

palette-colour : (v : ℕ) → v < 64 → nth palette (bit_and v 0xff) ≡ some (colour v)
unfolding colour length
palette-colour v h =
    ap (nth palette) (equal_below 64 (λ v. bit_and v 0xff) (λ v. v) v (unfold all_below in refl) h)
    ∙ nth-known palette v (unfold palette in omega (arith, h))

-- The pixels from `at` on have their colours, and no others are written.
pub IsCopied : ℕ → ℕ → Bytes → Bytes → Option Bytes → Type 0
IsCopied at n frame before r =
    (after : Bytes) × (r ≡ some after)
    × ((i : ℕ) → after i ≡ (if leb at i && ltb i (at + n) then colour (frame i) else before i))

-- The first pixel joins the ones behind it.
join :
    (at left i : ℕ) (frame pixels : Bytes)
    → (if leb (at + 1) i && ltb i (at + 1 + left)
        then colour (frame i)
        else update pixels at (colour (frame at)) i)
      ≡ (if leb at i && ltb i (at + suc left) then colour (frame i) else pixels i)
join at left i frame pixels = elim (Bool-cases (at == i)) [
  | inl e ↦ ground (arith, e, ap (λ k. colour (frame k)) ((==_iff at i).0 e))
  | inr e ↦ ground (arith, e)
]

copy_row-IsCopied :
    (left at : ℕ) (frame pixels : Bytes)
    → ((i : ℕ) → i < at + left → frame i < 64)
    → IsCopied at left frame pixels (copy_row left at frame pixels)
unfolding IsCopied copy_row
copy_row-IsCopied zero at frame pixels h = (pixels, refl, λ i. ground arith)
copy_row-IsCopied (suc left) at frame pixels h =
    let c = colour (frame at) in
    let r =
      copy_row-IsCopied left (at + 1) frame (update pixels at c) (λ i l. h i (omega (arith, l))) in
    rw (palette-colour (frame at) (h at (omega arith)))
      (r.0, r.1, λ i. r.2 i ∙ join at left i frame pixels)

-- A row joins the rows behind it.
join_rows :
    (at left i c p k : ℕ)
    → k ≡ (if leb at i && ltb i (at + 256) then c else p)
    → (if leb (at + 256) i && ltb i (at + 256 + left * 256) then c else k)
      ≡ (if leb at i && ltb i (at + suc left * 256) then c else p)
join_rows at left i c p k h = ground (arith, h)

copy_rows-IsCopied :
    (left at : ℕ) (frame pixels : Bytes)
    → ((i : ℕ) → i < at + left * 256 → frame i < 64)
    → IsCopied at (left * 256) frame pixels (copy_rows left at frame pixels)
unfolding IsCopied copy_rows
copy_rows-IsCopied zero at frame pixels h = (pixels, refl, λ i. ground arith)
copy_rows-IsCopied (suc left) at frame pixels h =
    let q = copy_row-IsCopied 256 at frame pixels (λ i l. h i (omega (arith, l))) in
    let r = copy_rows-IsCopied left (at + 256) frame q.0 (λ i l. h i (omega (arith, l))) in
    rw q.1
      (r.0, r.1, λ i. r.2 i ∙ join_rows at left i (colour (frame i)) (pixels i) (q.0 i) (q.2 i))

-- When every byte of the frame is a colour of the table, below 64, the copy of the frame is defined: it
-- writes the colour of each of the 61440 bytes at its place, and no other pixel.
pub copy_frame-IsCopied :
    (frame pixels : Bytes)
    → ((i : ℕ) → i < 61440 → frame i < 64)
    → IsCopied 0 61440 frame pixels (copy_frame frame pixels)
unfolding copy_frame
copy_frame-IsCopied frame pixels h = copy_rows-IsCopied 240 0 frame pixels h

nth-beyond : (xs : List ℕ) (k : ℕ) → length xs ≤ k → nth xs k ≡ none
unfolding length nth
nth-beyond [] k h = refl
nth-beyond (x ∷ xs) zero h = absurd (omega (arith, h))
nth-beyond (x ∷ xs) (suc k) h = nth-beyond xs k (omega (arith, h))

palette-beyond : (v : ℕ) → 64 ≤ v → v < 256 → nth palette (bit_and v 0xff) ≡ none
unfolding length
palette-beyond v h k =
    ap (nth palette) (equal_below 256 (λ v. bit_and v 0xff) (λ v. v) v (unfold all_below in refl) k)
    ∙ nth-beyond palette v (unfold palette in omega (arith, h))

-- One more element of a loop that fails later.
fails_later : (r : Option ℕ) (k : ℕ → Option Bytes) → ((c : ℕ) → k c ≡ none) → (r >>= k) ≡ none
fails_later none k h = refl
fails_later (some c) k h = h c

copy_row-none :
    (left at i : ℕ) (frame pixels : Bytes)
    → at ≤ i
    → i < at + left
    → nth palette (bit_and (frame i) 0xff) ≡ none
    → copy_row left at frame pixels ≡ none
unfolding copy_row
copy_row-none zero at i frame pixels le lt h = absurd (omega (arith, le, lt))
copy_row-none (suc left) at i frame pixels le lt h = elim (Bool-cases (at == i)) [
  | inl e ↦ rw ((==_iff at i).0 e, h) refl
  | inr e ↦
      fails_later (nth palette (bit_and (frame at) 0xff))
        (λ c. copy_row left (at + 1) frame (update pixels at c))
        λ c.
          copy_row-none left (at + 1) i frame (update pixels at c) (ground (arith, e, le))
            (omega (arith, lt)) h
]

copy_rows-none :
    (left at i : ℕ) (frame pixels : Bytes)
    → at ≤ i
    → i < at + left * 256
    → nth palette (bit_and (frame i) 0xff) ≡ none
    → copy_rows left at frame pixels ≡ none
unfolding copy_rows
copy_rows-none zero at i frame pixels le lt h = absurd (omega (arith, le, lt))
copy_rows-none (suc left) at i frame pixels le lt h = elim (Bool-cases (ltb i (at + 256))) [
  | inl e ↦ rw (copy_row-none 256 at i frame pixels le (ground (arith, e)) h) refl
  | inr e ↦
      rows_later (copy_row 256 at frame pixels) (copy_rows left (at + 256) frame) λ more.
        copy_rows-none left (at + 256) i frame more (ground (arith, e)) (omega (arith, lt)) h
]
  where
    rows_later :
        (r : Option Bytes) (k : Bytes → Option Bytes)
        → ((more : Bytes) → k more ≡ none)
        → (r >>= k) ≡ none
    rows_later none k h = refl
    rows_later (some more) k h = h more

-- When a byte of the frame is 64 or more, the copy reads beyond the end of the table of colours.
pub copy_frame-none :
    (i : ℕ) (frame pixels : Bytes)
    → i < 61440
    → 64 ≤ frame i
    → frame i < 256
    → copy_frame frame pixels ≡ none
unfolding copy_frame
copy_frame-none i frame pixels h le lt =
    copy_rows-none 240 0 i frame pixels (omega arith) h (palette-beyond (frame i) le lt)
