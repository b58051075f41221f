-- ===== src/Timeouts/Heartbeats.antt =====
-- The heartbeats of a rank and the timeouts calculated from them
-- (fault_tolerance/timeouts_calc.py, rank_monitor_server.py).
use nvidia_resiliency_ext_x.Prelude.{
  ℕ, zero, suc, ◌+◌, ◌*◌, ◌≤◌, ◌≡◌, refl, sym, subst, true, false, Option, none, some, List, [],
  ◌∷◌, arith, eqb, if◌then◌else◌,
}
use nvidia_resiliency_ext_x.Prelude.Method.{Exceptional, ok, err, ret, ◌>>◌}
use nvidia_resiliency_ext_x.Prelude.Integers.{
  ℤ, pos, negsuc, difference, leb_ℤ, max_ℤ, leb_ℤ-refl, leb_ℤ-trans, leb_ℤ-max_ℤ,
}
use nvidia_resiliency_ext_x.Data.{HeartbeatTimeouts}
use nvidia_resiliency_ext_x.RankMonitor.Serving.{is_over}
use nvidia_resiliency_ext_x.Timeouts.Calc.{
  CalcError, calc_error, TimeoutsCalc, first_hb, update_on_heartbeat,
}
use nvidia_resiliency_ext_x.Timeouts.Results.{
  scaled, can_get_hb_timeouts, calculated_before, merge_hb, get_hb_timeouts,
}

-- Heartbeats at the given moments.
unfoldable pub beats : List ℕ → TimeoutsCalc → Exceptional CalcError (Unit {0}) × TimeoutsCalc
unfolding update_on_heartbeat
beats [] = ret tt
beats (t ∷ ts) = update_on_heartbeat t >> beats ts

-- No gap between the moments, the first one counted from `since`, is longer than the limit.
abbrev pub AreWithin : ℤ → ℕ → List ℕ → Type 0
AreWithin limit since [] = Unit
AreWithin limit since (t ∷ ts) = (leb_ℤ (difference t since) limit ≡ true) × AreWithin limit t ts

AreWithin-mono :
    (a b : ℤ) (since : ℕ) (ts : List ℕ)
    → leb_ℤ a b ≡ true
    → AreWithin a since ts
    → AreWithin b since ts
AreWithin-mono a b since [] h w = tt
AreWithin-mono a b since (t ∷ ts) h w =
    (leb_ℤ-trans (difference t since) a b w.0 h, AreWithin-mono a b t ts h w.1)

-- What later heartbeats do to a calculator that has had one at `since`.
record IsBeaten (c : TimeoutsCalc) (since : ℕ) (ts : List ℕ)
    (r : Exceptional CalcError (Unit {0}) × TimeoutsCalc) : Type 0 where
  returns : r.0 ≡ ok tt
  same_factor : r.1.safety_factor ≡ c.safety_factor
  same_initial : r.1.initial_max_time ≡ c.initial_max_time
  grows : leb_ℤ c.subsequent_max_time r.1.subsequent_max_time ≡ true
  within : AreWithin r.1.subsequent_max_time since ts

update_on_heartbeat-next :
    (c : TimeoutsCalc) (since t : ℕ)
    → c.prev_hb_time ≡ some since
    → eqb c.count 0 ≡ false
    → update_on_heartbeat t c ≡ (
      ok tt,
      record c {
        subsequent_max_time = max_ℤ c.subsequent_max_time (difference t since);
        count = c.count + 1;
        prev_hb_time = some t;
      },
    )
unfolding update_on_heartbeat
update_on_heartbeat-next c since t p n = rw (n, p) refl

beats-step :
    (t : ℕ) (ts : List ℕ) (c d : TimeoutsCalc)
    → update_on_heartbeat t c ≡ (ok tt, d)
    → beats (t ∷ ts) c ≡ beats ts d
unfolding beats
beats-step t ts c d h = rw h refl

beats-IsBeaten :
    (ts : List ℕ) (c : TimeoutsCalc) (since : ℕ)
    → c.prev_hb_time ≡ some since
    → eqb c.count 0 ≡ false
    → IsBeaten c since ts (beats ts c)
unfolding beats
beats-IsBeaten [] c since p n = record {
  returns = refl;
  same_factor = refl;
  same_initial = refl;
  grows = leb_ℤ-refl c.subsequent_max_time;
  within = tt;
}
beats-IsBeaten (t ∷ ts) c since p n =
    let gap = difference t since in
    let d = record c {
      subsequent_max_time = max_ℤ c.subsequent_max_time gap;
      count = c.count + 1;
      prev_hb_time = some t;
    } in
    let rest = beats-IsBeaten ts d t refl (ground arith) in
    let limit = (beats ts d).1.subsequent_max_time in
    let both = leb_ℤ-max_ℤ c.subsequent_max_time gap in
    subst (IsBeaten c since (t ∷ ts))
      (sym (beats-step t ts c d (update_on_heartbeat-next c since t p n)))
      (record {
        returns = rest.returns;
        same_factor = rest.same_factor;
        same_initial = rest.same_initial;
        grows = leb_ℤ-trans c.subsequent_max_time d.subsequent_max_time limit both.0 rest.grows;
        within = (leb_ℤ-trans gap d.subsequent_max_time limit both.1 rest.grows, rest.within);
      })

-- What a calculator holds that starts at `c` and has had heartbeats at the given moments.
pub record IsObserved (c d : TimeoutsCalc) (t : ℕ) (ts : List ℕ) : Type 0 where
  pub same_factor : d.safety_factor ≡ c.safety_factor
  pub first : leb_ℤ (difference t c.start_time) d.initial_max_time ≡ true
  pub within : AreWithin d.subsequent_max_time t ts

-- From a calculator that has had no heartbeat, any heartbeats are taken without an exception; the time
-- to the first is at most the initial maximum, and no later gap is longer than the subsequent one.
pub beats-IsObserved :
    (t : ℕ) (ts : List ℕ) (c : TimeoutsCalc)
    → c.count ≡ 0
    → ((beats (t ∷ ts) c).0 ≡ ok tt) × IsObserved c (beats (t ∷ ts) c).1 t ts
unfolding update_on_heartbeat
beats-IsObserved t ts c h =
    let d = first_hb t c in
    let rest = beats-IsBeaten ts d t refl (ground arith) in
    let both = leb_ℤ-max_ℤ c.initial_max_time (difference t c.start_time) in
    let first : update_on_heartbeat t c ≡ (ok tt, d) = ground arith in
    subst (λ r. (r.0 ≡ ok tt) × IsObserved c r.1 t ts) (sym (beats-step t ts c d first))
      (
        rest.returns,
        record {
          same_factor = rest.same_factor;
          first =
              subst (λ m. leb_ℤ (difference t c.start_time) m ≡ true) (sym rest.same_initial)
                both.1;
          within = rest.within;
        },
      )

-- A monitor with this timeout that looks at the very moments of the heartbeats.
abbrev pub AreInTime : Option ℕ → ℕ → List ℕ → Type 0
AreInTime timeout since [] = Unit
AreInTime timeout since (t ∷ ts) = (is_over timeout since t ≡ false) × AreInTime timeout t ts

le-mul : (factor n : ℕ) → 1 ≤ factor → n ≤ factor * n
le-mul zero n f = omega arith
le-mul (suc k) n f = omega arith

scaled-is_over :
    (factor since t : ℕ) (limit : ℤ)
    → 1 ≤ factor
    → leb_ℤ (difference t since) limit ≡ true
    → is_over (some (scaled factor limit)) since t ≡ false
scaled-is_over factor since t (pos n) f h = let longer = le-mul factor n f in ground arith
scaled-is_over factor since t (negsuc n) f h = ground arith

scaled-AreInTime :
    (factor since : ℕ) (limit : ℤ) (ts : List ℕ)
    → 1 ≤ factor
    → AreWithin limit since ts
    → AreInTime (some (scaled factor limit)) since ts
scaled-AreInTime factor since limit [] f w = tt
scaled-AreInTime factor since limit (t ∷ ts) f w =
    (scaled-is_over factor since t limit f w.0, scaled-AreInTime factor t limit ts f w.1)

get_hb_timeouts-new :
    (current : Option HeartbeatTimeouts) (c : TimeoutsCalc) (timeouts : HeartbeatTimeouts)
    → calculated_before current ≡ none
    → get_hb_timeouts current c ≡ ok timeouts
    → (timeouts.initial ≡ some (scaled c.safety_factor c.initial_max_time))
      × (timeouts.subsequent ≡ some (scaled c.safety_factor c.subsequent_max_time))
unfolding get_hb_timeouts
get_hb_timeouts-new current c timeouts e h =
    let fresh : (if can_get_hb_timeouts c
          then merge_hb none (scaled c.safety_factor c.initial_max_time)
              (scaled c.safety_factor c.subsequent_max_time)
          else err calc_error)
        ≡ ok timeouts =
      subst
        (λ o.
          (if can_get_hb_timeouts c
            then merge_hb o (scaled c.safety_factor c.initial_max_time)
                (scaled c.safety_factor c.subsequent_max_time)
            else err calc_error)
          ≡ ok timeouts)
        e h in
    (ground (arith, fresh), ground (arith, fresh))

-- From a calculator that has had no heartbeat and has a safety factor of at least one, and where no
-- timeouts are given that were calculated before, the timeouts calculated from any run of
-- heartbeats would not have ended the rank on that run: a monitor with these timeouts that looks at
-- the moments of the heartbeats finds none late, the first counted from the start.
pub get_hb_timeouts-AreInTime :
    (current : Option HeartbeatTimeouts) (c : TimeoutsCalc) (t : ℕ) (ts : List ℕ)
    (timeouts : HeartbeatTimeouts)
    → calculated_before current ≡ none
    → c.count ≡ 0
    → 1 ≤ c.safety_factor
    → get_hb_timeouts current (beats (t ∷ ts) c).1 ≡ ok timeouts
    → (is_over timeouts.initial c.start_time t ≡ false) × AreInTime timeouts.subsequent t ts
get_hb_timeouts-AreInTime current c t ts timeouts e n f h =
    let d = (beats (t ∷ ts) c).1 in
    let seen = (beats-IsObserved t ts c n).1 in
    let (initial, subsequent) = get_hb_timeouts-new current d timeouts e h in
    let enough : 1 ≤ d.safety_factor = subst (λ x. 1 ≤ x) (sym seen.same_factor) f in
    (
      subst (λ x. is_over x c.start_time t ≡ false) (sym initial)
          (scaled-is_over d.safety_factor c.start_time t d.initial_max_time enough seen.first),
      subst (λ x. AreInTime x t ts) (sym subsequent)
          (scaled-AreInTime d.safety_factor t d.subsequent_max_time ts enough seen.within),
    )
