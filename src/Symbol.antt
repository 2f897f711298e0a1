-- ===== src/Symbol.antt =====
-- src/symbol_elf.c: a section of an ELF file by its name. libelf is a parameter.
use libdw_bcc.Prelude.{
  ℕ, zero, suc, ◌+◌, ◌<◌, ◌==◌, ◌≡◌, refl, ◌∙◌, ap, sym, ◌⊎◌, Option-cases, Bool, Bool-cases, inl,
  inr, true, false, ◌&&◌, Option, none, some, List, [], ◌∷◌, if◌then◌else◌, length, arith,
}
use libdw_bcc.Outcome.{Outcome, ok, fault}

-- GElf_Shdr, as far as it is read.
pub record Shdr : Type 0 where
  pub sh_name : ℕ
  pub sh_offset : ℕ

-- libelf: the header is the index of the section of names, e_shstrndx. elf_rawdata says only
-- whether there is any; elf_nextscn gives the first section for NULL; gelf_getshdr leaves its
-- argument alone where it fails.
pub record Libelf (Elf Scn : Type 0) : Type 0 where
  pub elf_begin : ℕ → Option Elf
  pub gelf_getehdr : Elf → Option ℕ
  pub elf_rawdata : Elf → ℕ → Bool
  pub elf_nextscn : Elf → Option Scn → Option Scn
  pub gelf_getshdr : Scn → Option Shdr
  pub elf_strptr : Elf → ℕ → ℕ → Option (List ℕ)

-- Whether strcmp gives 0.
abbrev pub str_eq : List ℕ → List ℕ → Bool
str_eq [] [] = true
str_eq [] (c ∷ t) = false
str_eq (c ∷ s) [] = false
str_eq (c ∷ s) (d ∷ t) = c == d && str_eq s t

pub str_eq_sound : (s t : List ℕ) → str_eq s t ≡ true → s ≡ t
str_eq_sound [] [] h = refl
str_eq_sound [] (c ∷ t) h = absurd (cc)
str_eq_sound (c ∷ s) [] h = absurd (cc)
str_eq_sound (c ∷ s) (d ∷ t) h = ground (arith, str_eq_sound s t)

str_eq_refl : (s : List ℕ) → str_eq s s ≡ true
str_eq_refl [] = refl
str_eq_refl (c ∷ s) = ground (arith, str_eq_refl s)

abbrev pub get_or : Option Shdr → Option Shdr → Option Shdr
get_or none old = old
get_or (some new) old = some new

module _ {Elf Scn : Type 0} (lib : Libelf Elf Scn) where
  -- str && !strcmp(name, str)
  unfoldable pub is_named : Elf → ℕ → List ℕ → Shdr → Bool
  is_named elf shstrndx name shdr = elim (lib.elf_strptr elf shstrndx shdr.sh_name) [
    | none ↦ false
    | some str ↦ str_eq name str
  ]

  -- The loop, from the section behind `sec` on: the section, what `shp` then holds, and `cnt`. It
  -- runs on fuel; without fuel it does not end.
  unfoldable pub next_named :
      ℕ → Elf → ℕ → List ℕ → Option Scn → Option Shdr → ℕ → Outcome (Option (Scn × Shdr × ℕ))
  next_named zero elf shstrndx name sec shp cnt = fault
  next_named (suc fuel) elf shstrndx name sec shp cnt = elim (lib.elf_nextscn elf sec) [
    | none ↦ ok none
    | some s ↦ elim (get_or (lib.gelf_getshdr s) shp) [
      | none ↦ fault
      | some shdr ↦
          let rest = next_named fuel elf shstrndx name (some s) (some shdr) (cnt + 1) in
          if is_named elf shstrndx name shdr then ok (some (s, shdr, cnt)) else rest
    ]
  ]

  -- elf_section_by_name, whose `shp` is not initialised.
  unfoldable pub elf_section_by_name : ℕ → Elf → ℕ → List ℕ → Outcome (Option (Scn × Shdr × ℕ))
  elf_section_by_name fuel elf shstrndx name =
      if lib.elf_rawdata elf shstrndx
      then next_named fuel elf shstrndx name none none 1
      else ok none

  -- The sections that elf_nextscn goes through, with their headers.
  pub data Sections (elf : Elf) : Option Scn → List (Scn × Shdr) → Type 0 where
    last : {sec : Option Scn} → lib.elf_nextscn elf sec ≡ none → Sections elf sec []
    next :
        {sec : Option Scn} {s : Scn} {shdr : Shdr} {rest : List (Scn × Shdr)}
        → lib.elf_nextscn elf sec ≡ some s
        → lib.gelf_getshdr s ≡ some shdr
        → Sections elf (some s) rest
        → Sections elf sec ((s, shdr) ∷ rest)

  -- The specification: the first section of the name, and its number, from `cnt` on.
  abbrev pub first_named : Elf → ℕ → List ℕ → List (Scn × Shdr) → ℕ → Option (Scn × Shdr × ℕ)
  first_named elf shstrndx name [] cnt = none
  first_named elf shstrndx name ((s, shdr) ∷ rest) cnt =
      let later = first_named elf shstrndx name rest (cnt + 1) in
      if is_named elf shstrndx name shdr then some (s, shdr, cnt) else later

  next_named-first :
      (fuel : ℕ) (elf : Elf) (shstrndx : ℕ) (name : List ℕ) {sec : Option Scn}
      {secs : List (Scn × Shdr)} (shp : Option Shdr) (cnt : ℕ)
      → Sections elf sec secs
      → length secs < fuel
      → next_named fuel elf shstrndx name sec shp cnt ≡ ok (first_named elf shstrndx name secs cnt)
  unfolding next_named
  next_named-first zero elf shstrndx name shp cnt c h = absurd (omega arith)
  next_named-first (suc fuel) elf shstrndx name shp cnt (last e) h = rw (e, next_named)
  next_named-first (suc fuel) elf shstrndx name shp cnt (next {sec} {s} {shdr} {rest} e g c) h =
      rw (e, g, next_named)
        (rw (next_named-first fuel elf shstrndx name (some shdr) (cnt + 1) c (omega arith))
          (elim (Bool-cases (is_named elf shstrndx name shdr)) [ inl e ↦ rw e | inr e ↦ rw e ]))

  pub elf_section_by_name-first_named :
      (fuel : ℕ) (elf : Elf) (shstrndx : ℕ) (name : List ℕ) (secs : List (Scn × Shdr))
      → lib.elf_rawdata elf shstrndx ≡ true
      → Sections elf none secs
      → length secs < fuel
      → elf_section_by_name fuel elf shstrndx name ≡ ok (first_named elf shstrndx name secs 1)
  unfolding elf_section_by_name
  elf_section_by_name-first_named fuel elf shstrndx name secs raw c h =
      rw raw (next_named-first fuel elf shstrndx name none 1 c h)

  -- The section has the name in the table of names; where that has no string, it has no name.
  abbrev pub HasName : Elf → ℕ → List ℕ → Shdr → Type 0
  HasName elf shstrndx name shdr = lib.elf_strptr elf shstrndx shdr.sh_name ≡ some name

  -- What is found in the sections from number `cnt` on: the first one that has the name.
  abbrev pub FoundIn : Elf → ℕ → List ℕ → List (Scn × Shdr) → ℕ → Option (Scn × Shdr × ℕ) → Type 0
  FoundIn elf shstrndx name [] cnt found = found ≡ none
  FoundIn elf shstrndx name ((s, shdr) ∷ rest) cnt found =
      (HasName elf shstrndx name shdr × (found ≡ some (s, shdr, cnt)))
      ⊎ (¬ HasName elf shstrndx name shdr × FoundIn elf shstrndx name rest (cnt + 1) found)

  is_named-HasName :
      (elf : Elf) (shstrndx : ℕ) (name : List ℕ) (shdr : Shdr)
      → is_named elf shstrndx name shdr ≡ true
      → HasName elf shstrndx name shdr
  unfolding is_named
  is_named-HasName elf shstrndx name shdr h =
      elim (Option-cases (lib.elf_strptr elf shstrndx shdr.sh_name)) [
        | inl e ↦ absurd (cc (rw (e, is_named) at h))
        | inr (str, e) ↦ e ∙ ap some (sym (str_eq_sound name str (rw (e, is_named) at h)))
      ]

  HasName-is_named :
      (elf : Elf) (shstrndx : ℕ) (name : List ℕ) (shdr : Shdr)
      → HasName elf shstrndx name shdr
      → is_named elf shstrndx name shdr ≡ true
  unfolding is_named
  HasName-is_named elf shstrndx name shdr h = rw (h, is_named) (str_eq_refl name)

  first_named-FoundIn :
      (elf : Elf) (shstrndx : ℕ) (name : List ℕ) (secs : List (Scn × Shdr)) (cnt : ℕ)
      → FoundIn elf shstrndx name secs cnt (first_named elf shstrndx name secs cnt)
  first_named-FoundIn elf shstrndx name [] cnt = refl
  first_named-FoundIn elf shstrndx name ((s, shdr) ∷ rest) cnt =
      elim (Bool-cases (is_named elf shstrndx name shdr)) [
        | inl e ↦ inl (is_named-HasName elf shstrndx name shdr e, rw e refl)
        | inr e ↦ inr (
          λ n. absurd (cc (HasName-is_named elf shstrndx name shdr n, e)),
          rw e (first_named-FoundIn elf shstrndx name rest (cnt + 1)),
        )
      ]

  -- With more rounds than there are sections, elf_section_by_name gives the first section whose
  -- string in the table of names is the name, its header and its number from 1 on, or nothing if
  -- there is none; a section without a string is passed over.
  pub elf_section_by_name-first :
      (fuel : ℕ) (elf : Elf) (shstrndx : ℕ) (name : List ℕ) (secs : List (Scn × Shdr))
      → lib.elf_rawdata elf shstrndx ≡ true
      → Sections elf none secs
      → length secs < fuel
      → (found : Option (Scn × Shdr × ℕ)) × (elf_section_by_name fuel elf shstrndx name ≡ ok found)
        × FoundIn elf shstrndx name secs 1 found
  elf_section_by_name-first fuel elf shstrndx name secs raw c h = (
    first_named elf shstrndx name secs 1,
    elf_section_by_name-first_named fuel elf shstrndx name secs raw c h,
    first_named-FoundIn elf shstrndx name secs 1,
  )
