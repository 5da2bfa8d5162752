-- ===== src/Dvb/Device.antt =====
-- mycode/gn_dvb.c: the device's files and the requests that tune it, with the results of the system
-- calls as arguments.

use dvb_stream_v.Base.{
  ℕ, ◌+◌, ◌-◌, ◌%◌, ◌^◌, ◌≡◌, refl, inl, inr, Bool, false, not, Option, none, some, List, [], ◌∷◌,
  arith, ◌==◌, if◌then◌else◌, ==→eq, Bool-cases, take, u16, u32,
}
use dvb_stream_v.Cfg.{minus_one}
use dvb_stream_v.Dvb.Settings.{DtvProperty, GnProgram}

-- `struct gn_dvb`
pub record GnDvb : Type 0 where
  pub frontend_fd : ℕ
  pub demux_fd : ℕ

-- `dvb_open_device`, given what `open` returns for the two files, `none` for a negative number: its
-- result, and `*device` if it is set.
unfoldable pub dvb_open_device : Option ℕ → Option ℕ → ℕ × Option GnDvb
dvb_open_device none demux = (1, none)
dvb_open_device (some frontend) none = (1, none)
dvb_open_device (some frontend) (some demux) =
    (0, some (record { frontend_fd = frontend; demux_fd = demux }))

-- `dvb_close_device`, given whether `close` succeeds: its result, and the files that it closes.
unfoldable pub dvb_close_device : (ℕ → Bool) → GnDvb → ℕ × List ℕ
dvb_close_device closes d =
    if not (closes d.frontend_fd)
    then (1, d.frontend_fd ∷ [])
    else if not (closes d.demux_fd)
    then (1, d.frontend_fd ∷ d.demux_fd ∷ [])
    else (0, d.frontend_fd ∷ d.demux_fd ∷ [])

-- The `ioctl` requests of `dvb_open_chennel`, with what they pass.
pub data Request : Type 0 where
  fe_set_property : ℕ → (ℕ → DtvProperty) → Request
  dmx_set_pes_filter : ℕ → Request
  dmx_add_pid : ℕ → Request
  dmx_start : Request

-- `dvb_open_chennel`: its result, and the requests that it makes, in order. `ioctl` is what a call returns,
-- given how many calls came before it. The results of the first two `DMX_ADD_PID` are overwritten.
unfoldable pub dvb_open_chennel : (ℕ → Request → ℕ) → GnProgram → ℕ × List Request
dvb_open_chennel ioctl p =
    let tune = fe_set_property p.property_len p.property in
    let filter = dmx_set_pes_filter (u16 p.video_pid) in
    let audio = dmx_add_pid p.audio_pid in
    let tables = dmx_add_pid 0 in
    let map_table = dmx_add_pid (u32 (p.video_pid + 2 ^ 32 - 1)) in
    if not (ioctl 0 tune == 0)
    then (1, tune ∷ [])
    else if ioctl 1 filter == minus_one
    then (1, tune ∷ filter ∷ [])
    else if not (ioctl 4 map_table == 0)
    then (1, tune ∷ filter ∷ audio ∷ tables ∷ map_table ∷ [])
    else if not (ioctl 5 dmx_start == 0)
    then (1, tune ∷ filter ∷ audio ∷ tables ∷ map_table ∷ dmx_start ∷ [])
    else (0, tune ∷ filter ∷ audio ∷ tables ∷ map_table ∷ dmx_start ∷ [])

-- The PID before the video's, as an unsigned int: that of 0 is 2^32 - 1.
abbrev pub pid_before : ℕ → ℕ
pid_before pid = if pid % 2 ^ 32 == 0 then 2 ^ 32 - 1 else pid % 2 ^ 32 - 1

-- The requests of a channel that opens.
abbrev pub requests_of : GnProgram → List Request
requests_of p =
    fe_set_property p.property_len p.property
    ∷ dmx_set_pes_filter (p.video_pid % 2 ^ 16)
    ∷ dmx_add_pid p.audio_pid
    ∷ dmx_add_pid 0
    ∷ dmx_add_pid (pid_before p.video_pid)
    ∷ dmx_start
    ∷ []

pid_before_lem : (pid : ℕ) → u32 (pid + 2 ^ 32 - 1) ≡ pid_before pid
pid_before_lem pid = ground arith

-- The results that decide.
abbrev pub Accepts : (ℕ → Request → ℕ) → GnProgram → Type 0
Accepts ioctl p =
    (ioctl 0 (fe_set_property p.property_len p.property) ≡ 0)
    × ((ioctl 1 (dmx_set_pes_filter (p.video_pid % 2 ^ 16)) == minus_one) ≡ false)
    × (ioctl 4 (dmx_add_pid (pid_before p.video_pid)) ≡ 0)
    × (ioctl 5 dmx_start ≡ 0)

-- What a call comes to.
pub data Opening (ioctl : ℕ → Request → ℕ) (p : GnProgram) (r : ℕ × List Request) : Type 0 where
  opens : Accepts ioctl p → r ≡ (0, requests_of p) → Opening ioctl p r
  stops : (n : ℕ) → ¬ Accepts ioctl p → r ≡ (1, take n (requests_of p)) → Opening ioctl p r

-- `dvb_open_chennel` returns 0 exactly if the frontend is tuned, the video filter does not return -1, the PID
-- of the map table is added and the demultiplexer is started, even if the PID of the audio or PID 0 were
-- refused; else it returns 1. Its requests are, in order, the tuning with the programme's properties, the
-- filter with the lowest 16 bits of the video's PID, the PIDs of the audio, of PID 0 and of the map table, which
-- is the number before the video's PID as an unsigned int, and the start; all of them if it returns 0, and
-- otherwise the first ones.
pub dvb_open_chennel_lem :
    (ioctl : ℕ → Request → ℕ) (p : GnProgram) → Opening ioctl p (dvb_open_chennel ioctl p)
unfolding dvb_open_chennel
dvb_open_chennel_lem ioctl p =
    let map_pid = pid_before_lem p.video_pid in
    rw map_pid (elim (Bool-cases (ioctl 0 (fe_set_property p.property_len p.property) == 0)) [
      | inr e1 ↦ rw e1 (stops 1 (λ c. absurd (cc (rw (c.0) at e1))) refl)
      | inl e1 ↦
          elim (Bool-cases (ioctl 1 (dmx_set_pes_filter (p.video_pid % 2 ^ 16)) == minus_one)) [
            | inl e2 ↦ rw (e1, e2) (stops 2 (λ c. absurd (cc (e2, c.1))) refl)
            | inr e2 ↦ elim (Bool-cases (ioctl 4 (dmx_add_pid (pid_before p.video_pid)) == 0)) [
              | inr e3 ↦ rw (e1, e2, e3) (stops 5 (λ c. absurd (cc (rw (c.2) at e3))) refl)
              | inl e3 ↦ elim (Bool-cases (ioctl 5 dmx_start == 0)) [
                | inr e4 ↦ rw (e1, e2, e3, e4) (stops 6 (λ c. absurd (cc (rw (c.3) at e4))) refl)
                | inl e4 ↦
                    rw (e1, e2, e3, e4) (opens (==→eq _ _ e1, e2, ==→eq _ _ e3, ==→eq _ _ e4) refl)
              ]
            ]
          ]
    ])
