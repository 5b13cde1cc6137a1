-- ===== src/Manager/Instructions/Blocks/RoundTrip.antt =====
-- What an installation has put behind a text is found there again, and can be taken out.
use kaleidoscope_sdk.Prelude.{
  ℕ, suc, ◌+◌, ◌-◌, ◌≡◌, refl, sym, ap, ◌∙◌, true, false, List, [], ◌∷◌, ◌++◌, length, take, drop,
  drop-append, drop-append_self, drop-length, take-append, Text, codes, is_empty, find, find_from,
  map, get_elem?, get_elem?-append, contains_text_in, match_indices, Bool-cases, inl, inr, arith,
  leb, ltb, bytes_eq_self, some, none, starts_with, ends_with, ends_with-eq, length-append,
}
use mathlib.Core.Path.{subst}
use mathlib.Core.List.{append_assoc, append-nil}
use kaleidoscope_sdk.Manager.Error.{ok}
use kaleidoscope_sdk.Manager.Instructions.{
  InstructionTarget, marker_block, marker_start, marker_end,
}
use kaleidoscope_sdk.Manager.Instructions.Blocks.{
  find_owned_block, owned_between, block_end, separator_for, install_block, removal_start,
  remove_block,
}
use kaleidoscope_sdk.Manager.Instructions.Blocks.Lines.{
  ends_in_break, has_break, is_line, is_line-parts, all_breaks, ends_in_break-append,
  match_indices-behind, matches_from-breaks, find_from-behind,
}

-- The block ends where it ends, behind a text too.
block_end-behind :
    (u t e : Text) (at : ℕ) → block_end (u ++ t) e (length u + at) ≡ length u + block_end t e at
block_end-behind u t e at =
    let moved : length u + at + length e ≡ length u + (at + length e) = omega arith in
    let next : get_elem? (u ++ t) (length u + at + length e) ≡ get_elem? t (at + length e) =
      rw moved (get_elem?-append u t (at + length e)) in
    ground (arith, next)

ltb_add : (k a b : ℕ) → ltb (k + a) (k + b) ≡ ltb a b
ltb_add k a b = ground arith

owned_between-behind :
    (u t e : Text) (starts ends : List ℕ)
    → owned_between (u ++ t) e (map (λ i. length u + i) starts) (map (λ i. length u + i) ends)
      ≡ owned_between t e starts ends
owned_between-behind u t e [] [] = refl
owned_between-behind u t e [] (at ∷ ends) = refl
owned_between-behind u t e (s ∷ []) [] = refl
owned_between-behind u t e (s ∷ []) (at ∷ []) =
    let less : length u + block_end t e at - (length u + s) ≡ block_end t e at - s = omega arith in
    rw (ltb_add (length u) s at, drop-append s u t, block_end-behind u t e at, less)
owned_between-behind u t e (s ∷ []) (at ∷ at' ∷ ends) = refl
owned_between-behind u t e (s ∷ s' ∷ starts) [] = refl
owned_between-behind u t e (s ∷ s' ∷ starts) (at ∷ []) = refl
owned_between-behind u t e (s ∷ s' ∷ starts) (at ∷ at' ∷ ends) = refl

separator_for-break : (t : Text) → ends_in_break (t ++ separator_for t) ≡ true
unfolding separator_for
separator_for-break [] = refl
separator_for-break (c ∷ t) = elim (Bool-cases (ends_with (c ∷ t) (codes "\n\n"))) [
  | inl two ↦
      let (r, is_two) = ends_with-eq (c ∷ t) (codes "\n\n") two in
      rw two (
        subst (λ u. ends_in_break u ≡ true) (sym (append-nil (c ∷ t) ∙ is_two))
          (ends_in_break-append r b'\n' (codes "\n") refl))
  | inr other ↦ elim (Bool-cases (ends_with (c ∷ t) (codes "\n"))) [
    | inl one ↦ rw (other, one) (ends_in_break-append (c ∷ t) b'\n' [] refl)
    | inr neither ↦ rw (other, neither) (ends_in_break-append (c ∷ t) b'\n' (codes "\n") refl)
  ]
]

separator_for-all_breaks : (t : Text) → all_breaks (separator_for t) ≡ true
unfolding separator_for
separator_for-all_breaks t = ground arith

-- A block behind other text is found as it would be alone, if that text ends in a line break and holds
-- no marker, and each marker stands in one line.
pub find_owned_block-behind :
    (u t : Text) (target : InstructionTarget)
    → ends_in_break u ≡ true
    → has_break (marker_start target) ≡ false
    → has_break (marker_end target) ≡ false
    → match_indices u (marker_start target) ≡ []
    → match_indices u (marker_end target) ≡ []
    → find_owned_block (u ++ t) target ≡ find_owned_block t target
unfolding find_owned_block
find_owned_block-behind u t target broken start_line end_line no_start no_end =
    rw
      (
        match_indices-behind u t (marker_start target) broken start_line no_start,
        match_indices-behind u t (marker_end target) broken end_line no_end,
      )
      (owned_between-behind u t (marker_end target) (match_indices t (marker_start target))
        (match_indices t (marker_end target)))

owned_between-none :
    (t e : Text) (starts ends : List ℕ)
    → owned_between t e starts ends ≡ ok none
    → (starts ≡ []) × (ends ≡ [])
owned_between-none t e [] [] h = (refl, refl)
owned_between-none t e [] (at ∷ ends) h = cc
owned_between-none t e (s ∷ []) [] h = cc
owned_between-none t e (s ∷ []) (at ∷ []) h = absurd (ground arith)
owned_between-none t e (s ∷ []) (at ∷ at' ∷ ends) h = cc
owned_between-none t e (s ∷ s' ∷ starts) ends h = cc

removal_start-install :
    (t s d : Text) → removal_start (t ++ (s ++ d)) s (length (t ++ s)) ≡ length t
unfolding removal_start
removal_start-install t [] d = ap length (append-nil t)
removal_start-install t (c ∷ s) d =
    let size : length (t ++ (c ∷ s)) - suc (length s) ≡ length t =
      omega (arith, length-append {0} t (c ∷ s)) in
    let fits : leb (suc (length s)) (length (t ++ (c ∷ s))) ≡ true =
      ground (arith, length-append {0} t (c ∷ s)) in
    let there : take (suc (length s)) (drop (length t) (t ++ ((c ∷ s) ++ d))) ≡ c ∷ s =
      rw (drop-append_self t ((c ∷ s) ++ d)) (take-append (c ∷ s) d) in
    ground (arith, size, fits, there, bytes_eq_self (c ∷ s))

contains_text_in-nil :
    (d p : Text) → starts_with d p ≡ true → is_empty p ≡ false → contains_text_in [] d ≡ false
unfolding find_from starts_with
contains_text_in-nil d [] starts pat = cc
contains_text_in-nil [] (c ∷ p) starts pat = cc
contains_text_in-nil (e ∷ d) (c ∷ p) starts pat = refl

-- A text without markers, and markers that stand in one line each.
module _ (t d : Text) (target : InstructionTarget)
    (start_line : has_break (marker_start target) ≡ false)
    (end_line : has_break (marker_end target) ≡ false)
    (start_pat : is_empty (marker_start target) ≡ false)
    (end_pat : is_empty (marker_end target) ≡ false)
    (none_yet : find_owned_block t target ≡ ok none) where
  no_markers :
      (match_indices (t ++ separator_for t) (marker_start target) ≡ [])
      × (match_indices (t ++ separator_for t) (marker_end target) ≡ [])
  unfolding find_owned_block
  no_markers =
      let (no_start, no_end) = owned_between-none _ _ _ _ none_yet in
      (
        matches_from-breaks t (separator_for t) (marker_start target) 0 start_pat start_line
            (separator_for-all_breaks t) no_start,
        matches_from-breaks t (separator_for t) (marker_end target) 0 end_pat end_line
            (separator_for-all_breaks t) no_end,
      )

  -- What an installation has added to a text without a block is found as it would be alone.
  find_installed-eq :
      {updated separator : Text}
      → install_block t none d marker_block ≡ ok (updated, separator)
      → find_owned_block updated target ≡ find_owned_block d target
  unfolding install_block
  find_installed-eq {updated} {separator} installed =
      let is_updated : updated ≡ (t ++ separator_for t) ++ d =
        ground (arith, append_assoc t (separator_for t) d) in
      rw is_updated (
        find_owned_block-behind (t ++ separator_for t) d target (separator_for-break t) start_line
          end_line no_markers.0 no_markers.1)

  find-installed :
      starts_with d (marker_start target) ≡ true
      → find (t ++ (separator_for t ++ d)) d ≡ some (length (t ++ separator_for t))
  find-installed starts =
      let whole : (t ++ separator_for t) ++ (d ++ []) ≡ t ++ (separator_for t ++ d) =
        ap (λ r. (t ++ separator_for t) ++ r) (append-nil d) ∙ append_assoc t (separator_for t) d in
      rw (← whole) (
        find_from-behind (t ++ separator_for t) [] (marker_start target) d 0 (separator_for-break t)
          start_line starts no_markers.0
        ∙ ap some (omega arith))

  -- Taking it out again gives the text back.
  remove_installed :
      {updated separator : Text}
      → starts_with d (marker_start target) ≡ true
      → install_block t none d marker_block ≡ ok (updated, separator)
      → remove_block updated d separator marker_block ≡ ok t
  unfolding remove_block install_block
  remove_installed {updated} {separator} starts installed =
      let is_updated : updated ≡ t ++ (separator_for t ++ d) = ground arith in
      let is_separator : separator ≡ separator_for t = ground arith in
      let behind : drop (length (t ++ separator_for t) + length d) (t ++ (separator_for t ++ d))
          ≡ [] =
        rw (← append_assoc t (separator_for t) d)
          (drop-append (length d) (t ++ separator_for t) d ∙ drop-length d) in
      let alone : contains_text_in [] d ≡ false =
        contains_text_in-nil d (marker_start target) starts start_pat in
      rw (is_updated, is_separator)
        (ground (
          arith,
          find-installed starts,
          behind,
          alone,
          removal_start-install t (separator_for t) d,
          take-append t (separator_for t ++ d),
          append-nil t,
        ))

-- Where each marker stands in one line, a block that starts with its marker and is added to a text
-- without markers is found exactly as in the block alone, and taking it out gives the text back byte for
-- byte.
pub remove_block-install_block :
    (text block : Text) (target : InstructionTarget) {updated separator : Text}
    → is_line (marker_start target) ≡ true
    → is_line (marker_end target) ≡ true
    → starts_with block (marker_start target) ≡ true
    → find_owned_block text target ≡ ok none
    → install_block text none block marker_block ≡ ok (updated, separator)
    → (find_owned_block updated target ≡ find_owned_block block target)
      × (remove_block updated block separator marker_block ≡ ok text)
remove_block-install_block text block target {updated} {separator} start finish starts none_yet
      added =
    let (start_pat, start_line) = is_line-parts (marker_start target) start in
    let (end_pat, end_line) = is_line-parts (marker_end target) finish in
    (
      find_installed-eq text block target start_line end_line start_pat end_pat none_yet added,
      remove_installed text block target start_line end_line start_pat end_pat none_yet starts
          added,
    )
