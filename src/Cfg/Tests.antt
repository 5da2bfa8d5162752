-- ===== src/Cfg/Tests.antt =====
-- Fields of concrete lines.
use dvb_stream_v.Base.{ℕ, ◌-◌, ◌^◌, ◌≡◌, refl, none, some, List, [], ◌∷◌, ◌++◌}
use dvb_stream_v.Cfg.{
  codes, contains, scan, is_space, digit_of, read_digits, read_number, read_prefixed, skip_space,
  scan_int, minus_one, dvbcfg_parse_int, dvbcfg_parse_char, dvbcfg_parse_setting,
  dvbcfg_parse_string, dvbcfg_lookup_setting, DvbcfgSetting,
}
use dvb_stream_v.Cfg.Settings.{dvbcfg_parse_string_lem, IsSettings, dvbcfg_parse_setting-lookup}

abbrev colon : List ℕ
colon = b':' ∷ []

abbrev bandwidths : List DvbcfgSetting
bandwidths =
    record { name = codes "BANDWIDTH_6_MHZ"; value = 6000000 }
    ∷ record { name = codes "BANDWIDTH_7_MHZ"; value = 7000000 }
    ∷ []

decimal_field : dvbcfg_parse_int (codes "514000000:X") colon ≡ (some (codes "X"), 514000000)
unfolding dvbcfg_parse_int scan contains scan_int skip_space is_space read_prefixed read_number
    read_digits digit_of
decimal_field = refl

negative_hex_field : dvbcfg_parse_int (codes " -0x10") colon ≡ (some [], 2 ^ 32 - 16)
unfolding dvbcfg_parse_int scan contains scan_int skip_space is_space read_prefixed read_number
    read_digits digit_of
negative_hex_field = refl

no_number : dvbcfg_parse_int (codes "x:1") colon ≡ (none, minus_one)
unfolding dvbcfg_parse_int scan contains scan_int skip_space is_space read_prefixed read_number
    read_digits digit_of
no_number = refl

a_char : dvbcfg_parse_char (codes "H:1") colon ≡ (some (codes "1"), b'H')
unfolding dvbcfg_parse_char scan contains
a_char = refl

dvbcfg_parse_string_lem_example :
    dvbcfg_parse_string (codes "ZDF" ++ 0 ∷ codes "old") colon 50
    ≡ (some (codes "old"), some (codes "ZDF" ++ 0 ∷ []))
unfolding contains
dvbcfg_parse_string_lem_example =
    dvbcfg_parse_string_lem colon (codes "ZDF") 0 (codes "old") 50
      ((refl, refl), ((refl, refl), ((refl, refl), tt))) refl

abbrev short_table : List DvbcfgSetting
short_table = record { name = codes "A"; value = 1 } ∷ record { name = codes "B"; value = 2 } ∷ []

short_table-IsSettings : IsSettings colon short_table
unfolding contains
short_table-IsSettings = (((refl, refl), tt), (refl, tt), (((refl, refl), tt), tt, tt))

dvbcfg_parse_setting-lookup_example :
    dvbcfg_parse_setting (codes "B:0") colon short_table ≡ (some (codes "0"), 2)
unfolding dvbcfg_lookup_setting contains
dvbcfg_parse_setting-lookup_example =
    dvbcfg_parse_setting-lookup colon 2 short_table (codes "B") b':' (codes "0")
      short_table-IsSettings refl refl refl
