-- ===== src/Known.antt =====
-- known/known.go: what is known of the peers of a torrent. A time is the number of nanoseconds since
-- the zero time, and `now` is `time.Now()`; `time.Since` of a later time is 0 here. The badness, an
-- int that is never negative, is a natural number.
use storrent.Prelude.{
  ℕ, ◌+◌, ◌-◌, ◌*◌, Bool, true, false, List, [], ◌∷◌, ltb, if◌then◌else◌, Option,
}

pub data Kind : Type 0 where
  none_kind tracker dht pex heard seen active active_no_reset connect_attempt good bad : Kind

pub record Known : Type 0 where
  pub id : Option (List ℕ)
  pub tracker_time : ℕ
  pub dht_time : ℕ
  pub pex_time : ℕ
  pub heard_time : ℕ
  pub seen_time : ℕ
  pub active_time : ℕ
  pub connect_attempt_time : ℕ
  pub bad_time : ℕ
  pub attempts : ℕ
  pub badness : ℕ
  pub version : List ℕ

-- The switch of Update.
update_kind : Known → Kind → ℕ → Known
update_kind kp none_kind now = kp
update_kind kp tracker now = record kp { tracker_time = now }
update_kind kp dht now = record kp { dht_time = now }
update_kind kp pex now = record kp { pex_time = now }
update_kind kp heard now = record kp { heard_time = now }
update_kind kp seen now = record kp { seen_time = now }
update_kind kp active now = record kp { active_time = now; attempts = 0 }
update_kind kp active_no_reset now = record kp { active_time = now }
update_kind kp connect_attempt now = record kp {
  connect_attempt_time = now;
  attempts = kp.attempts + 1;
}
update_kind kp good now = if ltb 0 kp.badness then record kp { badness = kp.badness - 1 } else kp
update_kind kp bad now = record kp { bad_time = now; badness = kp.badness + 5 }

abbrev is_text : List ℕ → Bool
is_text [] = false
is_text (c ∷ v) = true

unfoldable pub update : Known → List ℕ → Kind → ℕ → Known
unfolding update_kind
update kp version kind now =
    let kp' = update_kind kp kind now in
    if is_text version then record kp' { version = version } else kp'

abbrev pub minute : ℕ
minute = 60 * 1000000000

abbrev pub hour : ℕ
hour = 60 * minute

unfoldable pub recent : Known → ℕ → Bool
recent kp now =
    if ltb (now - kp.active_time) hour
    then true
    else if ltb (now - kp.seen_time) hour
    then true
    else if ltb (now - kp.dht_time) (35 * minute)
    then true
    else if ltb (now - kp.tracker_time) (35 * minute)
    then true
    else if ltb (now - kp.heard_time) hour
    then true
    else ltb (now - kp.pex_time) hour

unfoldable pub is_bad : Known → Bool
is_bad kp = ltb 20 kp.badness

unfoldable pub really_bad : Known → Bool
really_bad kp = ltb 50 kp.badness
