-- ===== src/Dvb/Tables.antt =====
-- The tables of settings of mycode/gn_dvb.c.

use dvb_stream_v.Base.{
  ℕ, ◌≡◌, refl, Bool, true, false, ◌&&◌, not, List, [], ◌∷◌, ◌==◌, not-true, All,
}
use dvb_stream_v.Cfg.{same_text, contains, DvbcfgSetting}
use dvb_stream_v.Cfg.Settings.{IsPlain, IsSettings}
use dvb_stream_v.Dvb.Settings.{
  dvbcfg_inversion_list, dvbcfg_fec_list, dvbcfg_constellation_list, dvbcfg_transmission_mode_list,
  dvbcfg_guard_interval_list, dvbcfg_hierarchy_list, dvbcfg_bandwidth_list, Api,
}
use dvb_stream_v.Dvb.{colon}

-- Tests of what a table has to be.
abbrev pub all_plain : List ℕ → List ℕ → Bool
all_plain tokens [] = true
all_plain tokens (c ∷ cs) = not (c == 0) && (not (contains tokens c) && all_plain tokens cs)

abbrev all_differ : List ℕ → List DvbcfgSetting → Bool
all_differ name [] = true
all_differ name (s ∷ ss) = not (same_text s.name name) && all_differ name ss

abbrev are_settings : List ℕ → List DvbcfgSetting → Bool
are_settings tokens [] = true
are_settings tokens (s ∷ ss) =
    all_plain tokens s.name && (all_differ s.name ss && are_settings tokens ss)

and_left : (a b : Bool) → (a && b) ≡ true → a ≡ true
and_left true b h = refl
and_left false b h = absurd (cc)

and_right : (a b : Bool) → (a && b) ≡ true → b ≡ true
and_right true b h = h
and_right false b h = absurd (cc)

pub all_plain_sound : (tokens cs : List ℕ) → all_plain tokens cs ≡ true → All (IsPlain tokens) cs
all_plain_sound tokens [] h = tt
all_plain_sound tokens (c ∷ cs) h =
    let first = and_left (not (c == 0)) _ h in
    let more = and_right (not (c == 0)) _ h in
    (
      (not-true _ first, not-true _ (and_left (not (contains tokens c)) _ more)),
      all_plain_sound tokens cs (and_right (not (contains tokens c)) _ more),
    )

all_differ_sound :
    (name : List ℕ) (ss : List DvbcfgSetting)
    → all_differ name ss ≡ true
    → All (λ t. same_text t.name name ≡ false) ss
all_differ_sound name [] h = tt
all_differ_sound name (s ∷ ss) h = (
  not-true _ (and_left (not (same_text s.name name)) _ h),
  all_differ_sound name ss (and_right (not (same_text s.name name)) _ h),
)

are_settings_sound :
    (tokens : List ℕ) (ss : List DvbcfgSetting)
    → are_settings tokens ss ≡ true
    → IsSettings tokens ss
are_settings_sound tokens [] h = tt
are_settings_sound tokens (s ∷ ss) h =
    let more = and_right (all_plain tokens s.name) _ h in
    (
      all_plain_sound tokens s.name (and_left (all_plain tokens s.name) _ h),
      all_differ_sound s.name ss (and_left (all_differ s.name ss) _ more),
      are_settings_sound tokens ss (and_right (all_differ s.name ss) _ more),
    )

-- The seven tables have plain names that differ from each other.
module _ (api : Api) where
  pub inversion_table : IsSettings colon (dvbcfg_inversion_list api)
  unfolding contains
  inversion_table = are_settings_sound colon (dvbcfg_inversion_list api) refl

  pub bandwidth_table : IsSettings colon (dvbcfg_bandwidth_list api)
  unfolding contains
  bandwidth_table = are_settings_sound colon (dvbcfg_bandwidth_list api) refl

  pub fec_table : IsSettings colon (dvbcfg_fec_list api)
  unfolding contains
  fec_table = are_settings_sound colon (dvbcfg_fec_list api) refl

  pub constellation_table : IsSettings colon (dvbcfg_constellation_list api)
  unfolding contains
  constellation_table = are_settings_sound colon (dvbcfg_constellation_list api) refl

  pub mode_table : IsSettings colon (dvbcfg_transmission_mode_list api)
  unfolding contains
  mode_table = are_settings_sound colon (dvbcfg_transmission_mode_list api) refl

  pub guard_table : IsSettings colon (dvbcfg_guard_interval_list api)
  unfolding contains
  guard_table = are_settings_sound colon (dvbcfg_guard_interval_list api) refl

  pub hierarchy_table : IsSettings colon (dvbcfg_hierarchy_list api)
  unfolding contains
  hierarchy_table = are_settings_sound colon (dvbcfg_hierarchy_list api) refl
