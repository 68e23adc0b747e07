-- ===== src/Listener/Housekeep/Verify.antt =====
-- When verifyTarGz of bodylog-listener-go/main.go lets an archive pass.
use llm_openresty.Base.{
  ◌≡◌, refl, sym, ap, ◌∙◌, ◌↔◌, Bool, true, false, Option, none, some, List, [], ◌∷◌, Text, text_eq,
  any, nat_eq, nat_eq_iff, length, All, arith, if◌then◌else◌, subst, split_and,
}
use llm_openresty.Base.Dict.{Dict, or_default}
use llm_openresty.Listener.Housekeep.{
  Tools, TarStep, header, broken, read_members, missing, all_there, none_missing, verify_tar_gz,
}

-- A member of the archive that is read to its end.
abbrev Sound : TarStep → Type 0
Sound broken = ◌≡◌ {A = Bool} false true
Sound (header name is_dir body) = body ≡ true

abbrev names_of : List TarStep → List Text
names_of [] = []
names_of (broken ∷ l) = names_of l
names_of (header name is_dir body ∷ l) = if is_dir then names_of l else name ∷ names_of l

-- Every member can be read to its end, and every file of the directory is among them.
pub record Covers (w : Tools) (want : Dict Text Text) (bytes : Text) : Type 0 where
  pub steps : List TarStep
  pub opened : w.unpack bytes ≡ some steps
  pub sound : All Sound steps
  pub complete : All (λ (f : Text × Text). any (text_eq f.0) (names_of steps) ≡ true) want

read_members-Sound : (l : List TarStep) → All Sound l → read_members l ≡ some (names_of l)
unfolding read_members
read_members-Sound [] h = refl
read_members-Sound (broken ∷ l) h = absurd (ground arith)
read_members-Sound (header name is_dir body ∷ l) (h, hs) = rw (h, read_members-Sound l hs) refl

abbrev HasMembers : List TarStep → Option (List Text) → Type 0
HasMembers l none = Unit
HasMembers l (some got) = All Sound l

Sound-read_members : (l : List TarStep) → HasMembers l (read_members l)
unfolding read_members
Sound-read_members [] = tt
Sound-read_members (broken ∷ l) = tt
Sound-read_members (header name is_dir false ∷ l) = tt
Sound-read_members (header name is_dir true ∷ l) = go (read_members l) (Sound-read_members l)
  where
    go :
        (o : Option (List Text))
        → HasMembers l o
        → HasMembers (header name is_dir true ∷ l) (elim o as (λ x. Option (List Text)) [
          | none ↦ none
          | some got ↦ some (if is_dir then got else name ∷ got)
        ])
    go none h = tt
    go (some g) h = (refl, h)

missing-nil :
    (want : Dict Text Text) (got : List Text)
    → All (λ (f : Text × Text). any (text_eq f.0) got ≡ true) want
    → missing want got ≡ []
unfolding missing
missing-nil [] got h = refl
missing-nil ((name, b) ∷ want) got (h, hs) = rw (h, missing-nil want got hs) refl

nil-missing :
    (want : Dict Text Text) (got : List Text)
    → length (missing want got) ≡ 0
    → All (λ (f : Text × Text). any (text_eq f.0) got ≡ true) want
unfolding missing
nil-missing [] got h = tt
nil-missing ((name, b) ∷ want) got h = go (any (text_eq name) got) refl h (nil-missing want got)
  where
    go :
        (c : Bool)
        → any (text_eq name) got ≡ c
        → length (if c then missing want got else name ∷ missing want got) ≡ 0
        → (length (missing want got) ≡ 0
            → All (λ (f : Text × Text). any (text_eq f.0) got ≡ true) want)
        → All (λ (f : Text × Text). any (text_eq f.0) got ≡ true) ((name, b) ∷ want)
    go true e f rec = (e, rec f)
    go false e f rec = absurd (omega (arith, f))

abbrev members : Option (List Text) → List Text
members o = or_default o []

module _ (w : Tools) (src : Text) (want : Dict Text Text) (bytes : Text) where
  none_missing-Covers :
      (o : Option (List TarStep))
      → w.unpack bytes ≡ o
      → none_missing want o ≡ true
      → Covers w want bytes
  none_missing-Covers none e h = absurd cc
  none_missing-Covers (some l) e h = go (read_members l) refl (Sound-read_members l) h
    where
      go :
          (o : Option (List Text))
          → read_members l ≡ o
          → HasMembers l o
          → all_there want o ≡ true
          → Covers w want bytes
      go none f s h = absurd cc
      go (some got) f s h = record {
        steps = l;
        opened = e;
        sound = s;
        complete =
            subst (λ g. All (λ (x : Text × Text). any (text_eq x.0) g ≡ true) want)
              (ap members (sym f ∙ read_members-Sound l s))
              (nil-missing want got ((nat_eq_iff (length (missing want got)) 0).0 h));
      }

  Covers-none_missing : (c : Covers w want bytes) → none_missing want (some c.steps) ≡ true
  Covers-none_missing c =
      ap (all_there want) (read_members-Sound c.steps c.sound)
      ∙ ap (λ l. nat_eq (length l) 0) (missing-nil want (names_of c.steps) c.complete)

  -- verifyTarGz returns nil just if it can walk the directory, the archive opens, every member of it reads
  -- to its end, and each file of the directory is among the members.
  pub verify_tar_gz_iff :
      (verify_tar_gz w src want bytes ≡ true) ↔ ((w.walks_again src ≡ true) × Covers w want bytes)
  unfolding verify_tar_gz
  verify_tar_gz_iff = (
    λ h.
        let (a, b) = split_and (w.walks_again src) _ h in
        (a, none_missing-Covers (w.unpack bytes) refl b),
    λ h. rw (h.0, h.1.opened, Covers-none_missing h.1) refl,
  )
