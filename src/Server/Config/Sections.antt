-- ===== src/Server/Config/Sections.antt =====
-- The loop over the sections decides that each can be routed to and no two claim the same place.
use dynamic_config_remote.Common.{
  ◌≡◌, ◌↔◌, refl, true, false, List, [], ◌∷◌, text_eq_iff, All, All-unzip, All-zip, Apart, arith,
  ok,
}
use dynamic_config_remote.Server.Names.{is_name}
use dynamic_config_remote.Server.Config.{SectionConfig, seen_pair, check_sections}

-- Both segments are names that a request can spell.
abbrev pub IsRoutable : SectionConfig → Type 0
IsRoutable s = (is_name s.application ≡ true) × (is_name s.profile ≡ true)

abbrev pub SamePlace : SectionConfig → SectionConfig → Type 0
SamePlace s t = (s.application ≡ t.application) × (s.profile ≡ t.profile)

abbrev Unclaimed : List SectionConfig → SectionConfig → Type 0
Unclaimed seen s = All (λ t. SamePlace t s → ⊥) seen

Unclaimed-sound :
    (s : SectionConfig) (seen : List SectionConfig) → seen_pair s seen ≡ false → Unclaimed seen s
unfolding seen_pair
Unclaimed-sound s [] h = tt
Unclaimed-sound s (t ∷ seen) h = ground (
  arith,
  Unclaimed-sound s seen,
  text_eq_iff t.application s.application,
  text_eq_iff t.profile s.profile,
)

Unclaimed-complete :
    (s : SectionConfig) (seen : List SectionConfig) → Unclaimed seen s → seen_pair s seen ≡ false
unfolding seen_pair
Unclaimed-complete s [] h = refl
Unclaimed-complete s (t ∷ seen) h = ground (
  arith,
  Unclaimed-complete s seen,
  text_eq_iff t.application s.application,
  text_eq_iff t.profile s.profile,
)

check_sections_step :
    (seen : List SectionConfig) (s : SectionConfig) (sections : List SectionConfig)
    → (check_sections seen (s ∷ sections) ≡ ok tt)
      ↔ (IsRoutable s × (seen_pair s seen ≡ false) × (check_sections (s ∷ seen) sections ≡ ok tt))
unfolding check_sections
check_sections_step seen s sections = (λ h. ground arith, λ h. ground arith)

sections_sound :
    (seen sections : List SectionConfig)
    → check_sections seen sections ≡ ok tt
    → All IsRoutable sections × All (Unclaimed seen) sections × Apart SamePlace sections
unfolding check_sections
sections_sound seen [] h = (tt, tt, tt)
sections_sound seen (s ∷ sections) h =
    let (routable, fresh, later) = (check_sections_step seen s sections).0 h in
    let (rs, us, apart) = sections_sound (s ∷ seen) sections later in
    let (apart_s, us') = All-unzip (λ u. SamePlace s u → ⊥) (Unclaimed seen) sections us in
    ((routable, rs), (Unclaimed-sound s seen fresh, us'), (apart_s, apart))

sections_complete :
    (seen sections : List SectionConfig)
    → All IsRoutable sections
    → All (Unclaimed seen) sections
    → Apart SamePlace sections
    → check_sections seen sections ≡ ok tt
unfolding check_sections
sections_complete seen [] rs us apart = refl
sections_complete seen (s ∷ sections) (routable, rs) (u, us) (apart_s, apart) =
    (check_sections_step seen s sections).1 (
      routable,
      Unclaimed-complete s seen u,
      sections_complete (s ∷ seen) sections rs
          (All-zip (λ u. SamePlace s u → ⊥) (Unclaimed seen) sections apart_s us) apart,
    )

All-Unclaimed : (sections : List SectionConfig) → All (Unclaimed []) sections
All-Unclaimed [] = tt
All-Unclaimed (s ∷ sections) = (tt, All-Unclaimed sections)

pub check_sections_iff :
    (sections : List SectionConfig)
    → (check_sections [] sections ≡ ok tt) ↔ (All IsRoutable sections × Apart SamePlace sections)
check_sections_iff sections = (
  λ h. let (rs, us, apart) = sections_sound [] sections h in (rs, apart),
  λ v. sections_complete [] sections v.0 (All-Unclaimed sections) v.1,
)
