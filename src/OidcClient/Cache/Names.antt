-- ===== src/OidcClient/Cache/Names.antt =====
-- File names of auth/oidcclient/client.go.
use tokyo3_base.Base.{
  ℕ, ◌≡◌, ◌≢◌, refl, true, false, ◌||◌, [], ◌∷◌, Bytes, bytes_eq, bytes_eq_iff, text, arith, All,
  Bool-cases, inl, inr, if◌then◌else◌,
}
use tokyo3_base.SealedCookie.{is_empty}
use tokyo3_base.OidcClient.Cache.{
  is_alphanumeric, is_file_byte, replace_bytes, replace_dots, safe_filename,
}

abbrev pub AreFileBytes : Bytes → Type 0
AreFileBytes s = All (λ c. is_file_byte c ≡ true) s

-- A name that stays in its directory.
pub record IsLeaf (s : Bytes) : Type 0 where
  pub bytes : AreFileBytes s
  pub present : s ≢ []
  pub not_here : s ≢ text "."
  pub not_parent : s ≢ text ".."

underscore_byte : is_file_byte b'_' ≡ true
unfolding is_file_byte is_alphanumeric
underscore_byte = refl

replaced_byte : (c : ℕ) → is_file_byte (if is_file_byte c then c else b'_') ≡ true
replaced_byte c = elim (Bool-cases (is_file_byte c)) [
  | inl good ↦ rw good good
  | inr bad ↦ rw bad underscore_byte
]

pub is_empty-true : (s : Bytes) → is_empty s ≡ true → s ≡ []
is_empty-true [] h = refl
is_empty-true (c ∷ s) h = absurd (ground (arith, h))

pub is_empty-false : (s : Bytes) → is_empty s ≡ false → s ≢ []
is_empty-false [] h e = absurd (ground (arith, h))
is_empty-false (c ∷ s) h e = absurd (ground (arith, e))

replace_bytes-bytes : (s : Bytes) → AreFileBytes (replace_bytes s)
unfolding replace_bytes
replace_bytes-bytes [] = tt
replace_bytes-bytes (c ∷ s) = (replaced_byte c, replace_bytes-bytes s)

replace_bytes-same : (s : Bytes) → AreFileBytes s → replace_bytes s ≡ s
unfolding replace_bytes
replace_bytes-same [] h = refl
replace_bytes-same (c ∷ s) h = rw (h.0, replace_bytes-same s h.1) refl

default-IsLeaf : IsLeaf (text "default")
unfolding is_file_byte is_alphanumeric
default-IsLeaf = record {
  bytes = (refl, (refl, (refl, (refl, (refl, (refl, (refl, tt)))))));
  present = λ h. ground (arith, h);
  not_here = λ h. ground (arith, h);
  not_parent = λ h. ground (arith, h);
}

dot-IsLeaf :
    (s : Bytes) → (bytes_eq s (text ".") || bytes_eq s (text "..")) ≡ true → IsLeaf (replace_dots s)
unfolding replace_dots is_file_byte is_alphanumeric
dot-IsLeaf s h = elim (Bool-cases (bytes_eq s (text "."))) [
  | inl here ↦ rw ((bytes_eq_iff s (text ".")).0 here) (record {
    bytes = (refl, tt);
    present = λ h. ground (arith, h);
    not_here = λ h. ground (arith, h);
    not_parent = λ h. ground (arith, h);
  })
  | inr other ↦ rw ((bytes_eq_iff s (text "..")).0 (ground (arith, h, other))) (record {
    bytes = (refl, (refl, tt));
    present = λ h. ground (arith, h);
    not_here = λ h. ground (arith, h);
    not_parent = λ h. ground (arith, h);
  })
]

leaf : (s : Bytes) → IsLeaf (safe_filename s)
unfolding safe_filename
leaf s = elim (Bool-cases (is_empty (replace_bytes s))) [
  | inl none_left ↦ rw none_left default-IsLeaf
  | inr left ↦
      rw left
        (elim (Bool-cases
          (bytes_eq (replace_bytes s) (text ".") || bytes_eq (replace_bytes s) (text ".."))) [
            | inl dots ↦ rw dots (dot-IsLeaf (replace_bytes s) dots)
            | inr plain ↦ rw plain (record {
              bytes = replace_bytes-bytes s;
              present = is_empty-false (replace_bytes s) left;
              not_here = λ h.
                  absurd (ground (arith, plain, (bytes_eq_iff (replace_bytes s) (text ".")).1 h));
              not_parent = λ h.
                  absurd (ground (arith, plain, (bytes_eq_iff (replace_bytes s) (text "..")).1 h));
            })
          ])
]

safe_filename_same : (s : Bytes) → IsLeaf s → safe_filename s ≡ s
unfolding safe_filename
safe_filename_same s h =
    let b : replace_bytes s ≡ s = replace_bytes-same s h.bytes in
    rw b (elim (Bool-cases (is_empty s)) [
      | inl nothing ↦ absurd (h.present (is_empty-true s nothing))
      | inr present ↦
          rw present (elim (Bool-cases (bytes_eq s (text ".") || bytes_eq s (text ".."))) [
            | inr plain ↦ rw plain refl
            | inl dots ↦ absurd (
                ground (
                  arith,
                  dots,
                  h.not_here,
                  h.not_parent,
                  bytes_eq_iff s (text "."),
                  bytes_eq_iff s (text ".."),
                ))
          ])
    ])

-- Whatever the string, the file name for it has at least one byte, only letters, digits, `.`, `_` and `-`
-- (so no separator), and is neither `.` nor `..`; and a string that is like this already stays as it is.
pub safe_filename-IsLeaf : (s : Bytes) → IsLeaf (safe_filename s) × (IsLeaf s → safe_filename s ≡ s)
safe_filename-IsLeaf s = (leaf s, safe_filename_same s)
