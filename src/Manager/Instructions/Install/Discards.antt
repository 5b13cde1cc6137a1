-- ===== src/Manager/Instructions/Install/Discards.antt =====
-- What an installation does with the text of the user.
use kaleidoscope_sdk.Prelude.{
  some-injective, ℕ, ◌+◌, ◌≡◌, refl, ap, ◌∙◌, Bool, true, false, [], ◌∷◌, ◌++◌, length, take, drop,
  Text, is_blank, Option-cases, inl, inr, ◌⊎◌, arith, some, none, Option, bytes_eq→eq, matches_from,
  find, find_from, find-eq, replace_first,
}
use kaleidoscope_sdk.Manager.Error.{ok}
use kaleidoscope_sdk.Manager.Files.Os.{Machine}
use kaleidoscope_sdk.Manager.Instructions.{
  InstructionTarget, skill, agents, claude, cursor, InstructionReceipt, Parts, OwnedShape,
  marker_block, whole_file, owned_shape,
}
use kaleidoscope_sdk.Manager.Instructions.Receipts.{owns}
use kaleidoscope_sdk.Manager.Instructions.Blocks.{
  validate_ownership, install_block, separator_for, current_owned,
}
use kaleidoscope_sdk.Manager.Instructions.Install.{unmanaged_content, install_check}

-- `bytes` is the text with `new` in the place of `old`.
abbrev pub Replaces : Text → Text → Text → Text → Type 0
Replaces text old new bytes =
    (a : Text) × (b : Text) × (text ≡ a ++ (old ++ b)) × (bytes ≡ a ++ (new ++ b))

-- The receipt owns the block.
abbrev pub Owns : Option InstructionReceipt → Text → Type 0
Owns old block =
    (receipt : InstructionReceipt) × (old ≡ some receipt) × (receipt.owned_block ≡ block)

-- What an installation that discards nothing of the user's may write.
abbrev pub Installs : OwnedShape → Option InstructionReceipt → Text → Text → Text → Type 0
Installs marker_block old text desired bytes =
    (bytes ≡ text ++ (separator_for text ++ desired))
    ⊎ ((block : Text) × Owns old block × Replaces text block desired bytes)
Installs whole_file old text desired bytes =
    (bytes ≡ desired) × ((is_blank text ≡ true) ⊎ Owns old text)

find_from-none :
    (t : Text) (at : ℕ) (p : Text) → find_from t at p ≡ none → matches_from t 0 at p ≡ []
unfolding find_from matches_from
find_from-none [] at p h = refl
find_from-none (c ∷ t) at p h = ground (arith, find_from-none t (at + 1) p)

install_block-Replaces :
    (text block desired : Text) {bytes separator : Text}
    → install_block text (some block) desired marker_block ≡ ok (bytes, separator)
    → Replaces text block desired bytes
unfolding install_block replace_first
install_block-Replaces text block desired {bytes} h = elim (Option-cases (find text block)) [
  | inl missing ↦ absurd (ground (arith, missing, find_from-none text 0 block missing))
  | inr (k, found) ↦
      (take k text, drop (k + length block) text, find-eq text block found, ground (arith, found))
]

-- What the checks of an installation leave: the manager's receipt for what it replaces, and nothing but
-- the manager's text where there is no block.
pub record Cleared (shape : OwnedShape) (old : Option InstructionReceipt) (text : Text)
    (current : Option Text) : Type 0 where
  pub owned : (block : Text) → current ≡ some block → Owns old block
  pub whole : (block : Text) → shape ≡ whole_file → current ≡ some block → block ≡ text
  pub blank : shape ≡ whole_file → current ≡ none → is_blank text ≡ true

pub install_block-Installs :
    (shape : OwnedShape) (old : Option InstructionReceipt) (text : Text) (current : Option Text)
    (desired : Text) {bytes separator : Text}
    → Cleared shape old text current
    → install_block text current desired shape ≡ ok (bytes, separator)
    → Installs shape old text desired bytes
unfolding install_block
install_block-Installs marker_block old text none desired cleared h = inl (ground arith)
install_block-Installs marker_block old text (some block) desired cleared h =
    inr (block, cleared.owned block refl, install_block-Replaces text block desired h)
install_block-Installs whole_file old text none desired cleared h =
    (ground arith, inl (cleared.blank refl refl))
install_block-Installs whole_file old text (some block) desired cleared h =
    (ground arith, inr (rw (← cleared.whole block refl refl) (cleared.owned block refl)))

owns-Owns :
    (old : Option InstructionReceipt) (block : Text) → owns old block ≡ true → Owns old block
owns-Owns none block h = cc
owns-Owns (some receipt) block h = (receipt, refl, bytes_eq→eq receipt.owned_block block h)

validate_ownership-Owns :
    (digest_bytes : Text → Text) (old : Option InstructionReceipt) (block : Text)
    (kind : InstructionTarget)
    → validate_ownership digest_bytes old (some block) kind ≡ ok tt
    → Owns old block
unfolding validate_ownership
validate_ownership-Owns digest_bytes none block kind h = cc
validate_ownership-Owns digest_bytes (some receipt) block kind h =
    (receipt, refl, bytes_eq→eq receipt.owned_block block (ground arith))

whole_file-current :
    (text : Text) (kind : InstructionTarget) (old : Option InstructionReceipt) (force : Bool)
    {block : Text}
    → current_owned text kind old whole_file force ≡ ok (some block)
    → block ≡ text
unfolding current_owned
whole_file-current text kind old force h = ground arith

is_blank-nil : is_blank [] ≡ true
unfolding is_blank
is_blank-nil = refl

blank_text :
    (machine : Machine) (parts : Parts) (kind : InstructionTarget) (old : Option InstructionReceipt)
    (text : Text) (force : Bool)
    → owned_shape kind ≡ whole_file
    → current_owned text kind old whole_file force ≡ ok none
    → unmanaged_content machine parts kind whole_file force old none text ≡ ok none
    → is_blank text ≡ true
unfolding current_owned unmanaged_content owned_shape
blank_text machine parts agents old text force is_whole found managed = cc
blank_text machine parts claude old text force is_whole found managed = cc
blank_text machine parts cursor old text force is_whole found managed = cc
blank_text machine parts skill old [] force is_whole found managed = is_blank-nil
blank_text machine parts skill (some r) (c ∷ t) force is_whole found managed = cc
blank_text machine parts skill none (c ∷ t) true is_whole found managed = ground arith
blank_text machine parts skill none (c ∷ t) false is_whole found managed = ground arith

module _ (machine : Machine) (parts : Parts) (kind : InstructionTarget)
    (old : Option InstructionReceipt) (text : Text) where
  install_check-Owns :
      (force : Bool) (block : Text) (replaced : Option Text)
      → install_check machine parts force old (some block) kind replaced ≡ ok none
      → Owns old block
  unfolding install_check
  install_check-Owns false block replaced h =
      validate_ownership-Owns machine.digest_bytes old block kind (ground arith)
  install_check-Owns true block replaced h = owns-Owns old block (ground arith)

  install_check-none :
      (force : Bool) (replaced : Option Text)
      → install_check machine parts force old none kind replaced ≡ ok none
      → replaced ≡ none
  unfolding install_check
  install_check-none false replaced h = ground arith
  install_check-none true replaced h = ground arith

  pub checks-Cleared :
      (force : Bool) (shape : OwnedShape) (current replaced : Option Text)
      → owned_shape kind ≡ shape
      → current_owned text kind old shape force ≡ ok current
      → unmanaged_content machine parts kind shape force old current text ≡ ok replaced
      → install_check machine parts force old current kind replaced ≡ ok none
      → Cleared shape old text current
  checks-Cleared force shape none replaced is_shape found managed checked = record {
    owned = λ block h. cc;
    whole = λ block w h. cc;
    blank = λ w h.
        blank_text machine parts kind old text force (is_shape ∙ w) (rw w at found)
          (rw w at (managed ∙ ap ok (install_check-none force replaced checked)));
  }
  checks-Cleared force shape (some block) replaced is_shape found managed checked = record {
    owned = λ b h. rw (← some-injective h) (install_check-Owns force block replaced checked);
    whole =
        λ b w h. rw (← some-injective h) (whole_file-current text kind old force (rw w at found));
    blank = λ w h. cc;
  }
