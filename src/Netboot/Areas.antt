-- ===== src/Netboot/Areas.antt =====
-- Reading and writing the areas of an image, for Image of host/netboot_firmware_settings.py.
use cros_dev_util.Base.{
  ℕ, ◌+◌, ◌-◌, ◌≤◌, ◌<◌, String, ◌≡◌, refl, sym, ap, ◌∙◌, ◌⊎◌, inl, inr, subst, some, [], ◌∷◌, ◌++◌,
  append_assoc, arith, ok, err, value_error, ok-injective, length, length-append, length-replicate,
  length-take, length-drop, take, drop, take-append, drop-append, replicate, dict_get, zero, suc,
}
use cros_dev_util.Netboot.{Bytes, Area, Image, ljust, set_item, get_item}

drop_exact : (xs ys : Bytes) (n : ℕ) → length xs ≡ n → drop n (xs ++ ys) ≡ ys
drop_exact xs ys n e = subst (λ k. drop k (xs ++ ys) ≡ ys) e (drop-append xs ys)

take_exact : (xs ys : Bytes) (n : ℕ) → length xs ≡ n → take n (xs ++ ys) ≡ xs
take_exact xs ys n e = subst (λ k. take k (xs ++ ys) ≡ xs) e (take-append xs ys)

-- A slice that ends before the end of a prefix.
slice_before :
    (s rest : Bytes) (at j m : ℕ)
    → j + m ≤ at
    → at ≤ length s
    → take m (drop j (take at s ++ rest)) ≡ take m (drop j s)
slice_before s rest zero zero zero h k = refl
slice_before s rest zero zero (suc m) h k = absurd (omega arith)
slice_before s rest zero (suc j) m h k = absurd (omega arith)
slice_before [] rest (suc at) j m h k = absurd (omega arith)
slice_before (x ∷ s) rest (suc at) zero zero h k = refl
slice_before (x ∷ s) rest (suc at) zero (suc m) h k =
    ap (λ l. x ∷ l) (slice_before s rest at zero m (omega arith) (omega arith))
slice_before (x ∷ s) rest (suc at) (suc j) m h k =
    slice_before s rest at j m (omega arith) (omega arith)

drop_skip : (p t : Bytes) (j : ℕ) → length p ≤ j → drop j (p ++ t) ≡ drop (j - length p) t
drop_skip [] t j h = ap (λ k. drop k t) (omega arith)
drop_skip (x ∷ p) t zero h = absurd (omega arith)
drop_skip (x ∷ p) t (suc j) h = drop_skip p t j (omega arith) ∙ ap (λ k. drop k t) (omega arith)

drop_nil : (n : ℕ) → drop {A = ℕ} n [] ≡ []
drop_nil zero = refl
drop_nil (suc n) = refl

drop-drop : (s : Bytes) (k j : ℕ) → k ≤ j → drop (j - k) (drop k s) ≡ drop j s
drop-drop s zero j h = ap (λ n. drop n s) (omega arith)
drop-drop s (suc k) zero h = absurd (omega arith)
drop-drop [] (suc k) (suc j) h = drop_nil (suc j - suc k)
drop-drop (x ∷ s) (suc k) (suc j) h =
    ap (λ n. drop n (drop k s)) (omega arith) ∙ drop-drop s k j (omega arith)

length-ljust : (n : ℕ) (v : Bytes) → length v ≤ n → length (ljust n v) ≡ n
unfolding ljust
length-ljust n v h =
    omega (
      arith,
      length-append v (replicate (n - length v) 0),
      length-replicate {A = ℕ} (n - length v) 0,
    )

-- The image data with the area [at, at + n) replaced by `v`, which has `n` bytes.
abbrev splice : ℕ → ℕ → Bytes → Bytes → Bytes
splice at n v s = take at s ++ (v ++ drop (at + n) s)

module _ (at n : ℕ) (v s : Bytes) (full : length v ≡ n) (inside : at + n ≤ length s) where
  length-splice : length (splice at n v s) ≡ length s
  length-splice = omega (
    arith,
    full,
    inside,
    length-append (take at s) (v ++ drop (at + n) s),
    length-append v (drop (at + n) s),
    length-take at s,
    length-drop (at + n) s,
  )

  length-before : length (take at s) ≡ at
  length-before = omega (arith, length-take at s)

  splice_same : take n (drop at (splice at n v s)) ≡ v
  splice_same =
      rw (drop_exact (take at s) (v ++ drop (at + n) s) at length-before)
        (take_exact v (drop (at + n) s) n full)

  splice_before : (j m : ℕ) → j + m ≤ at → take m (drop j (splice at n v s)) ≡ take m (drop j s)
  splice_before j m h = slice_before s (v ++ drop (at + n) s) at j m h (omega arith)

  splice_after : (j : ℕ) → at + n ≤ j → drop j (splice at n v s) ≡ drop j s
  splice_after j h =
      let prefix : length (take at s ++ v) ≡ at + n =
        omega (arith, full, length-before, length-append (take at s) v) in
      rw (← append_assoc (take at s) v (drop (at + n) s)) (
        drop_skip (take at s ++ v) (drop (at + n) s) j (omega arith)
        ∙ ap (λ k. drop (j - k) (drop (at + n) s)) prefix
        ∙ drop-drop s (at + n) j h)

-- An area that lies inside the image.
abbrev pub Inside : Image → Area → Type 0
Inside image area = area.offset + area.size ≤ length image.image_data

abbrev pub Apart : Area → Area → Type 0
Apart a b = (a.offset + a.size ≤ b.offset) ⊎ (b.offset + b.size ≤ a.offset)

-- What writing an area does: the area holds the value behind padded with NUL bytes, the image keeps
-- its length and its areas, and an area that does not overlap keeps its content.
pub record Written (image image' : Image) (key : String) (area : Area) (value : Bytes)
    : Type 0 where
  pub content : get_item image' key ≡ ok (ljust area.size value)
  pub same_length : length image'.image_data ≡ length image.image_data
  pub same_areas : image'.areas ≡ image.areas

module _ (image : Image) (key : String) (area : Area) (value : Bytes)
    (known : dict_get key image.areas ≡ some area) where
  abbrev result : Image
  result = record image {
    image_data = splice area.offset area.size (ljust area.size value) image.image_data;
  }

  set_item-ok : length value ≤ area.size → set_item image key value ≡ ok result
  unfolding set_item
  set_item-ok h = rw known (ground arith)

  -- A value that is too large for its area is refused.
  pub set_item_too_large : area.size < length value → set_item image key value ≡ err value_error
  unfolding set_item
  set_item_too_large h = rw known (ground arith)

  module _ (inside : Inside image area) (fits : length value ≤ area.size) where
    -- Writing an area that lies inside the image returns an image in which the area reads as the
    -- value padded with NUL bytes, and whose length and areas are as before.
    pub set_item-Written :
        (image' : Image) × (set_item image key value ≡ ok image')
        × Written image image' key area value
    set_item-Written = (
      result,
      set_item-ok fits,
      record {
        content =
            unfold get_item in
            rw known (
              ap ok (
                splice_same area.offset area.size (ljust area.size value) image.image_data
                  (length-ljust area.size value fits) inside));
        same_length =
            length-splice area.offset area.size (ljust area.size value) image.image_data
              (length-ljust area.size value fits) inside;
        same_areas = refl;
      },
    )

    slice-Apart :
        (other : Area)
        → Apart area other
        → take other.size (drop other.offset result.image_data)
          ≡ take other.size (drop other.offset image.image_data)
    slice-Apart other (inl behind) = ap (take other.size) (
        splice_after area.offset area.size (ljust area.size value) image.image_data
          (length-ljust area.size value fits) inside other.offset behind)
    slice-Apart other (inr ahead) =
        splice_before area.offset area.size (ljust area.size value) image.image_data
          (length-ljust area.size value fits) inside other.offset other.size ahead

    -- An area that does not overlap the one that is written reads as before.
    pub set_item_others :
        (image' : Image) (key' : String) (other : Area)
        → set_item image key value ≡ ok image'
        → dict_get key' image.areas ≡ some other
        → Apart area other
        → get_item image' key' ≡ get_item image key'
    set_item_others image' key' other h known' apart =
        subst (λ i. get_item i key' ≡ get_item image key')
          (ok-injective (sym (set_item-ok fits) ∙ h))
          (unfold get_item in rw known' (ap ok (slice-Apart other apart)))
