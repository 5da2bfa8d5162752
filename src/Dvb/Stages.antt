-- ===== src/Dvb/Stages.antt =====
-- The steps of the line parser of mycode/gn_dvb.c, each on its field.
use dvb_stream_v.Base.{
  ℕ, ◌+◌, ◌<◌, ◌≡◌, refl, ap, ◌∙◌, Bool, true, Option, none, some, List, [], ◌∷◌, ◌++◌, arith, leb,
  length, drop, All,
}
use dvb_stream_v.Cfg.{
  contains, scan_int, minus_one, Field, dvbcfg_parse_int, dvbcfg_parse_setting, dvbcfg_parse_string,
  dvbcfg_lookup_setting, DvbcfgSetting,
}
use dvb_stream_v.Cfg.Settings.{
  IsPlain, scan-append, scan-terminated, dvbcfg_parse_string_lem, IsSettings,
  dvbcfg_parse_setting-lookup,
}
use dvb_stream_v.Dvb.Settings.{GnProgram}
use dvb_stream_v.Dvb.{
  colon, Stage, past, put_property, setting_stage, low_fec_stage, frequency_stage, name_stage,
  video_stage, audio_stage, service_stage,
}

-- A text and a colon in front of the rest.
abbrev pub field : List ℕ → List ℕ → List ℕ
field text rest = text ++ b':' ∷ rest

pub past_lem :
    (r : Stage) (q : GnProgram) (text : List ℕ) (k : GnProgram → List ℕ → GnProgram × Bool)
    → r ≡ (q, some text)
    → past r k ≡ k q text
unfolding past
past_lem r q text k e = ap (λ (r : Stage). past r k) e

parse_int_lem :
    (text rest : List ℕ) (v : ℕ)
    → All (IsPlain colon) text
    → scan_int text ≡ some v
    → dvbcfg_parse_int (field text rest) colon ≡ (some rest, v)
unfolding dvbcfg_parse_int contains
parse_int_lem text rest v plain e =
    ap
      (λ (r : List ℕ × List ℕ). elim (scan_int r.0) as (λ _. Field) [
        | none ↦ (none, minus_one)
        | some value ↦ (some r.1, value)
      ])
      (scan-append colon text b':' rest plain refl refl)
    ∙ rw e refl

setting_lem :
    (v : ℕ) (ss : List DvbcfgSetting) (text rest : List ℕ)
    → IsSettings colon ss
    → dvbcfg_lookup_setting v ss ≡ some text
    → dvbcfg_parse_setting (field text rest) colon ss ≡ (some rest, v)
unfolding contains
setting_lem v ss text rest table e =
    dvbcfg_parse_setting-lookup colon v ss text b':' rest table e refl refl

pub setting_stage_lem :
    (i c v : ℕ) (ss : List DvbcfgSetting) (p : GnProgram) (text rest : List ℕ)
    → IsSettings colon ss
    → dvbcfg_lookup_setting v ss ≡ some text
    → setting_stage i c ss p (field text rest) ≡ (put_property p i c v, some rest)
setting_stage_lem i c v ss p text rest table e =
    ap (λ (f : Field). (put_property p i c f.1, f.0)) (setting_lem v ss text rest table e)

pub low_fec_stage_lem :
    (v : ℕ) (ss : List DvbcfgSetting) (p : GnProgram) (text rest : List ℕ)
    → IsSettings colon ss
    → dvbcfg_lookup_setting v ss ≡ some text
    → low_fec_stage ss p (field text rest) ≡ (p, some rest)
low_fec_stage_lem v ss p text rest table e =
    ap (λ (f : Field). (p, f.0)) (setting_lem v ss text rest table e)

pub frequency_stage_lem :
    (c v : ℕ) (p : GnProgram) (text rest : List ℕ)
    → All (IsPlain colon) text
    → scan_int text ≡ some v
    → frequency_stage c p (field text rest) ≡ (put_property p 0 c v, some rest)
frequency_stage_lem c v p text rest plain e =
    ap (λ (f : Field). (put_property p 0 c f.1, f.0)) (parse_int_lem text rest v plain e)

pub video_stage_lem :
    (v : ℕ) (p : GnProgram) (text rest : List ℕ)
    → All (IsPlain colon) text
    → scan_int text ≡ some v
    → video_stage p (field text rest) ≡ (record p { video_pid = v }, some rest)
video_stage_lem v p text rest plain e =
    ap (λ (f : Field). (record p { video_pid = f.1 }, f.0)) (parse_int_lem text rest v plain e)

pub audio_stage_lem :
    (v : ℕ) (p : GnProgram) (text rest : List ℕ)
    → All (IsPlain colon) text
    → scan_int text ≡ some v
    → audio_stage p (field text rest) ≡ (record p { audio_pid = v }, some rest)
audio_stage_lem v p text rest plain e =
    ap (λ (f : Field). (record p { audio_pid = f.1 }, f.0)) (parse_int_lem text rest v plain e)

pub service_stage_lem :
    (v : ℕ) (p : GnProgram) (text rest : List ℕ)
    → All (IsPlain colon) text
    → scan_int text ≡ some v
    → service_stage p (text ++ 0 ∷ rest) ≡ (record p { service_id = v }, true)
unfolding dvbcfg_parse_int
service_stage_lem v p text rest plain e =
    let last : dvbcfg_parse_int (text ++ 0 ∷ rest) colon ≡ (some (0 ∷ rest), v) =
      ap
        (λ (r : List ℕ × List ℕ). elim (scan_int r.0) as (λ _. Field) [
          | none ↦ (none, minus_one)
          | some value ↦ (some r.1, value)
        ])
        (scan-terminated colon text rest plain)
      ∙ rw e refl in
    ap
      (λ (f : Field). elim f.0 as (λ _. GnProgram × Bool) [
        | none ↦ (record p { service_id = 0 }, true)
        | some more ↦ (record p { service_id = f.1 }, true)
      ])
      last

pub name_stage_lem :
    (p : GnProgram) (text rest : List ℕ)
    → All (IsPlain colon) text
    → length text < 50
    → name_stage p (field text rest)
      ≡ (record p { name = (text ++ 0 ∷ []) ++ drop (length (text ++ 0 ∷ [])) p.name }, some rest)
unfolding contains
name_stage_lem p text rest plain small =
    let fits : leb (length text + 1) 50 ≡ true = ground arith in
    let read : dvbcfg_parse_string (field text rest) colon 50 ≡ (some rest, some (text ++ 0 ∷ [])) =
      dvbcfg_parse_string_lem colon text b':' rest 50 plain refl ∙ rw fits refl in
    ap
      (λ (r : Option (List ℕ) × Option (List ℕ)). elim r.1 as (λ _. Stage) [
        | none ↦ (p, r.0)
        | some field ↦ (record p { name = field ++ drop (length field) p.name }, r.0)
      ])
      read
