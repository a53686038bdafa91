-- ===== src/Redis/Memory/Lawful.antt =====
-- The store in memory has the laws of Redis.
use hotelsb2b.Common.{
  ℕ, suc, ◌+◌, ◌*◌, ◌≤◌, ◌<◌, ◌≡◌, refl, sym, false, Option, none, some, arith, Bool-cases, inl,
  inr,
}
use hotelsb2b.Redis.{Value, number, Laws}
use hotelsb2b.Redis.Memory.{Entry, put_self, put_ne, alive, read, left, counted, limited, memory}

none-some : {v : Value} → none ≡ some v → ⊥
none-some h = absurd cc

some-none : {v : Value} → some v ≡ none → ⊥
some-none h = absurd cc

read-after :
    (now later : ℕ) (v : Value)
    → later < now
    → read later (some (record { value = v; deadline = some now })) ≡ some v
read-after now later v h = ground arith

read-over :
    (now later : ℕ) (v : Value)
    → now ≤ later
    → read later (some (record { value = v; deadline = some now })) ≡ none
read-over now later v h = ground arith

read_number :
    (later n : ℕ) (e : Entry)
    → read later (some e) ≡ some (number n)
    → read later (some (record e { value = number (suc n) })) ≡ some (number (suc n))
read_number later n e h = elim (Bool-cases (alive later e.deadline)) [
  | inl a ↦ rw a refl
  | inr a ↦ absurd (none-some (rw a at h))
]

read_no_number :
    (later n : ℕ) (e : Entry)
    → read later (some e) ≡ none
    → read later (some (record e { value = number (suc n) })) ≡ none
read_no_number later n e h = elim (Bool-cases (alive later e.deadline)) [
  | inl a ↦ absurd (some-none (rw a at h))
  | inr a ↦ rw a refl
]

counted_some :
    (e : Option Entry) (now n : ℕ)
    → read now e ≡ some (number n)
    → (later : ℕ)
    → (read later e ≡ some (number n)
        → read later (counted (some (number n)) e) ≡ some (number (suc n)))
      × (read later e ≡ none → read later (counted (some (number n)) e) ≡ none)
counted_some none now n h later = absurd cc
counted_some (some e) now n h later = (read_number later n e, read_no_number later n e)

alive-later :
    (d : Option ℕ) (now later : ℕ) → now ≤ later → alive now d ≡ false → alive later d ≡ false
alive-later none now later h e = e
alive-later (some d) now later h e = ground arith

read-later :
    (e : Entry) (now later : ℕ)
    → now ≤ later
    → read now (some e) ≡ none
    → read later (some e) ≡ none
read-later e now later h same = elim (Bool-cases (alive now e.deadline)) [
  | inl a ↦ absurd (some-none (rw a at same))
  | inr a ↦ rw (alive-later e.deadline now later h a) refl
]

limited_self :
    (e : Option Entry) (v : Option Value) (now later seconds : ℕ)
    → v ≡ read now e
    → now ≤ later
    → later < now + 1000 * seconds
    → read later (limited now v e seconds) ≡ v
limited_self e (some v) now later seconds same h h' = read-after _ later v h'
limited_self none none now later seconds same h h' = refl
limited_self (some e) none now later seconds same h h' = read-later e now later h (sym same)

limited_over :
    (e : Option Entry) (v : Option Value) (now later seconds : ℕ)
    → v ≡ read now e
    → now + 1000 * seconds ≤ later
    → read later (limited now v e seconds) ≡ none
limited_over e (some v) now later seconds same h = read-over _ later v h
limited_over none none now later seconds same h = refl
limited_over (some e) none now later seconds same h =
    read-later e now later (omega arith) (sym same)

left-none : (e : Option Entry) (now : ℕ) → read now e ≡ none → left now e ≡ 0
left-none none now h = refl
left-none (some e) now h = elim (Bool-cases (alive now e.deadline)) [
  | inl a ↦ absurd (some-none (rw a at h))
  | inr a ↦ rw a refl
]

left-lt :
    (now later : ℕ) (v : Value)
    → later + 1000 ≤ now
    → 0 < left later (some (record { value = v; deadline = some now }))
left-lt now later v h = ground arith

pub memory-Laws : Laws memory
memory-Laws = record {
  get-set_self = λ s now later k v seconds h. rw (put_self s k) (read-after _ later v h);
  get-set_over =
      λ s now later k v seconds h. rw (put_self s k) (read-over _ later v (omega (arith, h)));
  get-set_ne = λ s now later k j v t ne. rw (put_ne s k j) refl;
  get-del_self = λ s later k. rw (put_self s k none) refl;
  get-del_ne = λ s later k j ne. rw (put_ne s k j none ne) refl;
  incr_none = λ s now later k h. rw (h, put_self s k) (refl, refl);
  incr_some = λ s now k n h. rw h (
    refl,
    λ later e. rw (put_self s k) ((counted_some (s k) now n h later).0 e),
    λ later e. rw (put_self s k) ((counted_some (s k) now n h later).1 e),
  );
  get-incr_ne = λ s now later k j ne. rw (put_ne s k j) refl;
  get-expire_self = λ s now later k seconds h h'.
      rw (put_self s k) (limited_self (s k) _ now later seconds refl h h');
  get-expire_over = λ s now later k seconds h.
      rw (put_self s k) (limited_over (s k) _ now later seconds refl (omega (arith, h)));
  get-expire_ne = λ s now later k j seconds ne. rw (put_ne s k j) refl;
  ttl_none = λ s now k h. left-none (s k) now h;
  ttl-set = λ s now later k v seconds h h'. rw (put_self s k) (left-lt _ later v h');
  ttl-ne-set = λ s now later k j v t ne. rw (put_ne s k j) refl;
  ttl-del_ne = λ s later k j ne. rw (put_ne s k j) refl;
}
