-- ===== src/FileTransfer/Sections.antt =====
-- filetransfer/store.go and asdu/filet.go: a file cut into sections, and its checksum.
use go_iecp.Shared.{
  ℕ, zero, suc, ◌+◌, ◌-◌, ◌<◌, ◌≤◌, ◌≡◌, refl, List, [], ◌∷◌, ◌++◌, ◌==◌, ltb, if◌then◌else◌, byte,
  length, take, drop, All, arith, length-take, length-drop, take-append-drop,
}
use go_iecp.Asdu.Message.{Params, asdu_size_max, identifier_size}

abbrev pub default_section_size : ℕ
default_section_size = 4096

-- The loop from `off` to the end in steps of `size`; each takes an octet at least.
unfoldable pub cut : ℕ → ℕ → List ℕ → List (List ℕ)
cut zero size data' = []
cut (suc fuel) size [] = []
cut (suc fuel) size (x ∷ xs) = take size (x ∷ xs) ∷ cut fuel size (drop size (x ∷ xs))

-- The loop over `data`, with a step for each of its octets at most.
unfoldable pub pieces : ℕ → List ℕ → List (List ℕ)
unfolding cut
pieces size data' = cut (length data') size data'

-- `splitSections`; a size of 0 stands for one that is not positive.
unfoldable pub split_sections : List ℕ → ℕ → List (List ℕ)
split_sections [] section_size = [] ∷ []
split_sections (x ∷ xs) section_size =
    pieces (if section_size == 0 then default_section_size else section_size) (x ∷ xs)

unfoldable pub concat : List (List ℕ) → List ℕ
concat [] = []
concat (xs ∷ xss) = xs ++ concat xss

-- `FileChecksum`
unfoldable pub sum_from : ℕ → List ℕ → ℕ
sum_from sum [] = sum
sum_from sum (v ∷ rest) = sum_from (byte (sum + v)) rest

unfoldable pub file_checksum : List ℕ → ℕ
unfolding sum_from
file_checksum b = sum_from 0 b

-- The checksum of the whole file, as the sender's `lastSectionActions` sums it.
pub sum_checksums : ℕ → List (List ℕ) → ℕ
sum_checksums chs [] = chs
sum_checksums chs (sec ∷ rest) = sum_checksums (byte (chs + file_checksum sec)) rest

-- `MaxSegmentSize`
unfoldable pub max_segment_size : Params → ℕ
max_segment_size p =
    let n = asdu_size_max - (identifier_size p + p.info_obj_addr_size + 4) in
    if ltb 255 n then 255 else n

abbrev pub IsPiece : ℕ → List ℕ → Type 0
IsPiece size xs = (0 < length xs) × (length xs ≤ size)

concat-cut :
    (fuel size : ℕ) (xs : List ℕ) → 0 < size → length xs ≤ fuel → concat (cut fuel size xs) ≡ xs
unfolding concat cut
concat-cut zero size [] n h = refl
concat-cut zero size (x ∷ xs) n h = absurd (omega arith)
concat-cut (suc fuel) size [] n h = refl
concat-cut (suc fuel) size (x ∷ xs) n h = ground (
  arith,
  concat-cut fuel size (drop size (x ∷ xs)),
  length-drop size (x ∷ xs),
  take-append-drop size (x ∷ xs),
)

cut-IsPiece : (fuel size : ℕ) (xs : List ℕ) → 0 < size → All (IsPiece size) (cut fuel size xs)
unfolding cut
cut-IsPiece zero size xs n = tt
cut-IsPiece (suc fuel) size [] n = tt
cut-IsPiece (suc fuel) size (x ∷ xs) n =
    (omega (arith, length-take size (x ∷ xs)), cut-IsPiece fuel size (drop size (x ∷ xs)) n)

pub concat-pieces : (size : ℕ) (xs : List ℕ) → 0 < size → concat (pieces size xs) ≡ xs
unfolding pieces
concat-pieces size xs n = concat-cut (length xs) size xs n (omega arith)

pub pieces-IsPiece : (size : ℕ) (xs : List ℕ) → 0 < size → All (IsPiece size) (pieces size xs)
unfolding pieces
pieces-IsPiece size xs n = cut-IsPiece (length xs) size xs n

-- For every section size, the sections that splitSections makes of a file with an octet at least
-- are the file again when put together, and each has an octet at least and at most the section
-- size, or the default one when the size given is 0; an empty file is a single empty section.
pub split_sections-concat :
    (xs : List ℕ) (section_size : ℕ)
    → (concat (split_sections xs section_size) ≡ xs)
      × (0 < length xs
          → All
              (IsPiece (if section_size == 0 then 4096 else section_size))
              (split_sections xs section_size))
      × (length xs ≡ 0 → split_sections xs section_size ≡ [] ∷ [])
unfolding split_sections concat
split_sections-concat [] n = (refl, λ h. absurd (omega arith), λ h. refl)
split_sections-concat (x ∷ xs) n =
    let size = if n == 0 then 4096 else n in
    let positive : 0 < size = ground arith in
    (
      concat-pieces size (x ∷ xs) positive,
      λ h. pieces-IsPiece size (x ∷ xs) positive,
      λ h. absurd (omega arith),
    )

pub length-split_sections : (xs : List ℕ) (n : ℕ) → 0 < length (split_sections xs n)
unfolding split_sections pieces cut
length-split_sections [] n = omega arith
length-split_sections (x ∷ xs) n = omega arith

sum_from-byte : (a : ℕ) (xs : List ℕ) → a < 256 → sum_from a xs ≡ byte (a + sum_from 0 xs)
unfolding sum_from
sum_from-byte a [] h = omega arith
sum_from-byte a (v ∷ xs) h = omega (
  arith,
  sum_from-byte (byte (a + v)) xs (omega arith),
  sum_from-byte (byte (0 + v)) xs (omega arith),
)

sum_from-append : (a : ℕ) (xs ys : List ℕ) → sum_from a (xs ++ ys) ≡ sum_from (sum_from a xs) ys
unfolding sum_from
sum_from-append a [] ys = refl
sum_from-append a (v ∷ xs) ys = sum_from-append (byte (a + v)) xs ys

sum_checksums-sum_from :
    (a : ℕ) (xss : List (List ℕ)) → a < 256 → sum_checksums a xss ≡ sum_from a (concat xss)
unfolding sum_checksums sum_from file_checksum concat
sum_checksums-sum_from a [] h = refl
sum_checksums-sum_from a (xs ∷ xss) h = ground (
  arith,
  sum_checksums-sum_from (byte (a + sum_from 0 xs)) xss,
  sum_from-append a xs (concat xss),
  sum_from-byte a xs,
)

-- The checksum of a file is that of its sections' checksums.
pub sum_checksums-file_checksum :
    (xss : List (List ℕ)) → sum_checksums 0 xss ≡ file_checksum (concat xss)
unfolding file_checksum
sum_checksums-file_checksum xss = sum_checksums-sum_from 0 xss (omega arith)
