-- ===== src/Monitoring/Sampler.antt =====
-- app/services/monitoring/sampler.py: the lease of the leader and the rounds of the samplers, command
-- by command. Redis times are in seconds, the timestamps of samples in milliseconds.
pub mod Leader
use stream_sight_backend.Prelude.{
  ℕ, ◌+◌, ◌*◌, Bool, true, false, not, ◌&&◌, Option, none, some, List, [], ◌∷◌, ◌++◌, String,
  str_eq, ltb, leb, ◌==◌, if◌then◌else◌,
}
use stream_sight_backend.Sql.{delete_where}

-- the key `monitor:sampler:leader`: its value and when it expires
abbrev pub Lease : Type 0
Lease = Option (String × ℕ)

-- GET
unfoldable pub holder : ℕ → Lease → Option String
holder now none = none
holder now (some (i, expires)) = if ltb now expires then some i else none

abbrev pub is_holder : String → Option String → Bool
is_holder i none = false
is_holder i (some j) = not (str_eq j "") && str_eq j i

-- EXPIRE
abbrev pub extended : ℕ → ℕ → Lease → Lease
extended seconds now none = none
extended seconds now (some (j, expires)) =
    if ltb now expires then some (j, now + seconds) else some (j, expires)

-- a sample, by its `ts` and the rest of it
pub record Sample : Type 0 where
  pub ts : ℕ
  pub data_id : ℕ

-- the stream, the publications on `monitor.db` and the members of the sorted set
pub record Sinks : Type 0 where
  pub stream : List Sample
  pub pushed : List Sample
  pub members : List Sample

abbrev pub same_sample : Sample → Sample → Bool
same_sample a b = a.ts == b.ts && a.data_id == b.data_id

-- ZADD of a member whose score is its `ts`
abbrev pub add_member : Sample → List Sample → List Sample
add_member d l = delete_where (same_sample d) l ++ d ∷ []

-- ZREMRANGEBYSCORE from 0 to `ts - retention`
abbrev pub trim_members : ℕ → Sample → List Sample → List Sample
trim_members retention d l = delete_where (λ (m : Sample). leb (m.ts + retention) d.ts) l

-- How a command of Redis ends: with its answer, by an exception after it took effect, or by one
-- before.
pub data Reply : Type 0 where
  answered lost failed : Reply

abbrev pub effect {ℓ} : {A : Type ℓ} → Reply → A → A → A
effect answered new old = new
effect lost new old = new
effect failed new old = old

abbrev pub on_reply {ℓ} : {A : Type ℓ} → Reply → A → A → A
on_reply answered next raised = next
on_reply lost next raised = raised
on_reply failed next raised = raised

-- Where an instance stands: before the SET of a round, before the GET and the EXPIRE of
-- `_acquire_lease`, before the probe and the commands of the `try` block of `_tick`, and before the
-- GET and the DEL of `_release_lease`.
pub data Place : Type 0 where
  idle reading extending sampling : Place
  appending publishing : Sample → Place
  -- with the retention in milliseconds
  adding trimming : ℕ → Sample → Place
  releasing deleting stopped : Place

abbrev pub after_probe : Option Sample → Place
after_probe none = idle
after_probe (some d) = appending d

-- with the retention where there is a sorted set
abbrev pub after_publish : Option ℕ → Sample → Place
after_publish none d = idle
after_publish (some retention) d = adding retention d

-- what the next command of an instance comes to: the reply of Redis, and the sample of the probe,
-- `none` for an exception
pub record Outcome : Type 0 where
  pub reply : Reply
  pub sample : Option Sample

pub record After : Type 0 where
  pub place : Place
  pub lease : Lease
  pub sinks : Sinks

-- SET NX EX, by what the key holds
abbrev pub set_lease : ℕ → String → ℕ → Reply → Option String → Lease → Sinks → After
set_lease seconds i now r none l s = record {
  place = on_reply r sampling idle;
  lease = effect r (some (i, now + seconds)) l;
  sinks = s;
}
set_lease seconds i now r (some j) l s = record {
  place = on_reply r reading idle;
  lease = l;
  sinks = s;
}

-- The next command of an instance, at a time. In between, other instances may send theirs. An
-- exception ends the round, and ends `stop`.
unfoldable pub command : ℕ → Option ℕ → String → ℕ → Outcome → Place → Lease → Sinks → After
command seconds retention i now o idle l s = set_lease seconds i now o.reply (holder now l) l s
command seconds retention i now o reading l s = record {
  place = on_reply o.reply (if is_holder i (holder now l) then extending else idle) idle;
  lease = l;
  sinks = s;
}
command seconds retention i now o extending l s = record {
  place = on_reply o.reply sampling idle;
  lease = effect o.reply (extended seconds now l) l;
  sinks = s;
}
command seconds retention i now o sampling l s = record {
  place = after_probe o.sample;
  lease = l;
  sinks = s;
}
command seconds retention i now o (appending d) l s = record {
  place = on_reply o.reply (publishing d) idle;
  lease = l;
  sinks = effect o.reply (record s { stream = s.stream ++ d ∷ [] }) s;
}
command seconds retention i now o (publishing d) l s = record {
  place = on_reply o.reply (after_publish retention d) idle;
  lease = l;
  sinks = effect o.reply (record s { pushed = s.pushed ++ d ∷ [] }) s;
}
command seconds retention i now o (adding kept d) l s = record {
  place = on_reply o.reply (trimming kept d) idle;
  lease = l;
  sinks = effect o.reply (record s { members = add_member d s.members }) s;
}
command seconds retention i now o (trimming kept d) l s = record {
  place = idle;
  lease = l;
  sinks = effect o.reply (record s { members = trim_members kept d s.members }) s;
}
command seconds retention i now o releasing l s = record {
  place = on_reply o.reply (if is_holder i (holder now l) then deleting else stopped) stopped;
  lease = l;
  sinks = s;
}
command seconds retention i now o deleting l s = record {
  place = stopped;
  lease = effect o.reply none l;
  sinks = s;
}
command seconds retention i now o stopped l s = record { place = stopped; lease = l; sinks = s }

-- all instances with what they share in Redis
pub record Cluster : Type 0 where
  pub lease : Lease
  pub sinks : Sinks
  pub place : String → Place

abbrev pub put_place : (String → Place) → String → Place → String → Place
put_place place i p j = if str_eq j i then p else place j

-- An instance sends its next command, or its task is cancelled by `stop`.
pub data Event : Type 0 where
  next : String → ℕ → Outcome → Event
  stop : String → Event

unfoldable pub step : ℕ → Option ℕ → Event → Cluster → Cluster
step seconds retention (next i now o) c =
    let a = command seconds retention i now o (c.place i) c.lease c.sinks in
    record { lease = a.lease; sinks = a.sinks; place = put_place c.place i a.place }
step seconds retention (stop i) c = record c { place = put_place c.place i releasing }

-- the events of all instances, in the order in which Redis sees the commands
unfoldable pub run : ℕ → Option ℕ → List Event → Cluster → Cluster
run seconds retention [] c = c
run seconds retention (e ∷ es) c = run seconds retention es (step seconds retention e c)
