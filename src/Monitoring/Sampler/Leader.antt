-- ===== src/Monitoring/Sampler/Leader.antt =====
-- app/services/monitoring/sampler.py: one leader at a time, where the commands of the instances
-- interleave.
use stream_sight_backend.Prelude.{
  ℕ, ◌+◌, ◌<◌, ◌≡◌, refl, sym, Bool, true, false, Option, none, some, List, [], ◌∷◌, String, str_eq,
  eq_iff, eq_refl, arith, All,
}
use stream_sight_backend.Monitoring.Sampler.{
  holder, is_holder, Sinks, answered, Place, idle, reading, sampling, extending, appending,
  publishing, adding, trimming, releasing, deleting, stopped, Outcome, command, Cluster, put_place,
  Event, next, stop, step, run,
}

-- An instance that does not stand before a command that writes to what they share, but the SET.
abbrev pub is_quiet : Place → Bool
is_quiet idle = true
is_quiet reading = true
is_quiet extending = false
is_quiet sampling = false
is_quiet (appending d) = false
is_quiet (publishing d) = false
is_quiet (adding kept d) = false
is_quiet (trimming kept d) = false
is_quiet releasing = true
is_quiet deleting = false
is_quiet stopped = true

-- An event of another instance, a command of it within the time of a lease.
abbrev pub IsOther : String → ℕ → Event → Type 0
IsOther i expires (next j now o) = (str_eq i j ≡ false) × (now < expires)
IsOther i expires (stop j) = str_eq i j ≡ false

abbrev pub OthersQuiet : String → (String → Place) → Type 0
OthersQuiet i place = (j : String) → str_eq i j ≡ false → is_quiet (place j) ≡ true

-- `i` holds the lease until it expires and stands where it stood, what is stored is `s`, and no
-- other instance is about to write.
pub record IsLed (i : String) (expires : ℕ) (p : Place) (s : Sinks) (c : Cluster) : Type 0 where
  pub leased : c.lease ≡ some (i, expires)
  pub stored : c.sinks ≡ s
  pub stands : c.place i ≡ p
  pub quiet : OthersQuiet i c.place

put_quiet :
    (place : String → Place) (j : String) (q : Place) (x : String)
    → is_quiet q ≡ true
    → is_quiet (place x) ≡ true
    → is_quiet (put_place place j q x) ≡ true
put_quiet place j q x h k = ground (arith, h, k)

str_sym : (i x : String) → str_eq x i ≡ true → str_eq i x ≡ true
str_sym i x h = (eq_iff i x).1 (sym ((eq_iff x i).0 h))

module _ (seconds : ℕ) (retention : Option ℕ) (i : String) (expires : ℕ) (s : Sinks) where
  not_held :
      (j : String) (now : ℕ)
      → str_eq i j ≡ false
      → is_holder j (holder now (some (i, expires))) ≡ false
  unfolding holder
  not_held j now e = ground (arith, e)

  -- a command of a quiet instance while another one holds the lease
  quiet_waits :
      (j : String) (now : ℕ) (o : Outcome) (q : Place)
      → str_eq i j ≡ false
      → now < expires
      → is_quiet q ≡ true
      → let a = command seconds retention j now o q (some (i, expires)) s in
        (a.lease ≡ some (i, expires)) × (a.sinks ≡ s) × (is_quiet a.place ≡ true)
  unfolding command holder
  quiet_waits j now o idle e h q = ground arith
  quiet_waits j now o reading e h q = ground (arith, not_held j now e)
  quiet_waits j now o releasing e h q = ground (arith, not_held j now e)
  quiet_waits j now o stopped e h q = (refl, refl, refl)
  quiet_waits j now o extending e h q = absurd (cc)
  quiet_waits j now o sampling e h q = absurd (cc)
  quiet_waits j now o (appending d) e h q = absurd (cc)
  quiet_waits j now o (publishing d) e h q = absurd (cc)
  quiet_waits j now o (adding kept d) e h q = absurd (cc)
  quiet_waits j now o (trimming kept d) e h q = absurd (cc)
  quiet_waits j now o deleting e h q = absurd (cc)

  -- an event of another instance changes nothing for the leader
  step-IsLed :
      (p : Place) (c : Cluster) (e : Event)
      → IsOther i expires e
      → IsLed i expires p s c
      → IsLed i expires p s (step seconds retention e c)
  unfolding step
  step-IsLed p c (next j now o) (apart, early) h =
      let (l, k, q) = quiet_waits j now o (c.place j) apart early (h.quiet j apart) in
      let after = command seconds retention j now o (c.place j) (some (i, expires)) s in
      let same : command seconds retention j now o (c.place j) c.lease c.sinks ≡ after =
        rw (h.leased, h.stored) refl in
      rw same (record {
        leased = l;
        stored = k;
        stands = rw apart h.stands;
        quiet = λ (x : String) (other : str_eq i x ≡ false).
            put_quiet c.place j after.place x q (h.quiet x other);
      })
  step-IsLed p c (stop j) apart h = record {
    leased = h.leased;
    stored = h.stored;
    stands = rw apart h.stands;
    quiet = λ (x : String) (other : str_eq i x ≡ false).
        put_quiet c.place j releasing x refl (h.quiet x other);
  }

  run-IsLed :
      (p : Place) (c : Cluster) (es : List Event)
      → All (IsOther i expires) es
      → IsLed i expires p s c
      → IsLed i expires p s (run seconds retention es c)
  unfolding run
  run-IsLed p c [] h l = l
  run-IsLed p c (e ∷ es) h l =
      run-IsLed p (step seconds retention e c) es h.1 (step-IsLed p c e h.0 l)

-- the SET of an instance that finds no lease
takes :
    (seconds : ℕ) (retention : Option ℕ) (i : String) (now : ℕ) (o : Outcome) (c : Cluster)
    → c.place i ≡ idle
    → holder now c.lease ≡ none
    → o.reply ≡ answered
    → OthersQuiet i c.place
    → IsLed i (now + seconds) sampling c.sinks (step seconds retention (next i now o) c)
unfolding step command
takes seconds retention i now o c at free reply quiet = record {
  leased = ground (arith, at, free, reply);
  stored = rw (at, free) refl;
  stands = ground (arith, eq_refl i, at, free, reply);
  quiet = λ (x : String) (other : str_eq i x ≡ false).
      ground (arith, quiet x other, other, str_sym i x);
}

-- An instance whose SET of a round takes the lease leads alone while it lasts, if no other instance
-- stands before a command by which it writes (its EXPIRE, its DEL or those of a sample): whatever
-- commands the others send before the lease expires, in whatever order and with whatever replies,
-- and whichever of them are stopped, the lease is still its own, it stands before its sample,
-- nothing else is stored, and no other instance has come to stand before such a command.
pub one_leader :
    (seconds : ℕ) (retention : Option ℕ) (i : String) (now : ℕ) (o : Outcome) (c : Cluster)
    (es : List Event)
    → c.place i ≡ idle
    → holder now c.lease ≡ none
    → o.reply ≡ answered
    → OthersQuiet i c.place
    → All (IsOther i (now + seconds)) es
    → IsLed i (now + seconds) sampling c.sinks (run seconds retention (next i now o ∷ es) c)
unfolding run
one_leader seconds retention i now o c es at free reply quiet others =
    run-IsLed seconds retention i (now + seconds) c.sinks sampling
      (step seconds retention (next i now o) c) es others
      (takes seconds retention i now o c at free reply quiet)

module _ (seconds : ℕ) (retention : Option ℕ) (i : String) (expires : ℕ) (s : Sinks) where
  -- a command of the leader itself
  own_step :
      (now later : ℕ) (o : Outcome) (p q : Place) (c : Cluster)
      → IsLed i expires p s c
      → command seconds retention i now o p (some (i, expires)) s
        ≡ record { place = q; lease = some (i, later); sinks = s }
      → IsLed i later q s (step seconds retention (next i now o) c)
  unfolding step
  own_step now later o p q c h e =
      let same : command seconds retention i now o (c.place i) c.lease c.sinks
          ≡ record { place = q; lease = some (i, later); sinks = s } =
        rw (h.leased, h.stored, h.stands) e in
      rw same (record {
        leased = refl;
        stored = refl;
        stands = rw (eq_refl i) refl;
        quiet = λ (x : String) (other : str_eq i x ≡ false).
            ground (arith, h.quiet x other, other, str_sym i x);
      })

  own_holder : (now : ℕ) → now < expires → holder now (some (i, expires)) ≡ some i
  unfolding holder
  own_holder now h = ground arith

  -- A leader that begins its next round before its lease expires, and whose SET, GET and EXPIRE are
  -- answered before then, leads again from the time of the EXPIRE, whatever commands other
  -- instances send between its own before the lease expires, if they were quiet at the start and
  -- its id is not empty.
  pub leader_renews :
      (t1 t2 t3 : ℕ) (o : Outcome) (c : Cluster) (es es' : List Event)
      → str_eq i "" ≡ false
      → o.reply ≡ answered
      → IsLed i expires idle s c
      → t1 < expires
      → t2 < expires
      → t3 < expires
      → All (IsOther i expires) es
      → All (IsOther i expires) es'
      → let c1 = run seconds retention (next i t1 o ∷ es) c in
        let c2 = run seconds retention (next i t2 o ∷ es') c1 in
        IsLed i (t3 + seconds) sampling s (step seconds retention (next i t3 o) c2)
  unfolding run command
  leader_renews t1 t2 t3 o c es es' name reply led e1 e2 e3 h h' =
      let d1 =
        own_step t1 expires o idle reading c led (rw (own_holder t1 e1) (ground (arith, reply))) in
      let c1 = run seconds retention es (step seconds retention (next i t1 o) c) in
      let l1 =
        run-IsLed seconds retention i expires s reading (step seconds retention (next i t1 o) c) es
          h d1 in
      let d2 =
        own_step t2 expires o reading extending c1 l1
          (rw (own_holder t2 e2) (ground (arith, reply, name, eq_refl i))) in
      let l2 =
        run-IsLed seconds retention i expires s extending (step seconds retention (next i t2 o) c1)
          es' h' d2 in
      own_step t3 (t3 + seconds) o extending sampling
        (run seconds retention es' (step seconds retention (next i t2 o) c1)) l2
        (ground (arith, reply))
