-- ===== src/SpscQueue/Misuse.antt =====
-- More threads on a queue than it is made for, as when several threads log, or `flush` is called while
-- the worker of the logger runs: a second producer and a second consumer beside those of `Threads`.
use trading_matcher.Base.{
  ℕ, ◌<◌, ◌≡◌, ◌≢◌, refl, sym, ap, ap₂, subst, ◌∙◌, inl, inr, true, some, List, [], ◌∷◌, ◌++◌,
  arith, length,
}
use trading_matcher.SpscQueue.{Queue, write_slot, next_index, push, pop, capacity}
use trading_matcher.SpscQueue.Fifo.{IsRing, contents, push_refines, pop_refines}
use trading_matcher.SpscQueue.Threads.{Producer, Consumer, Shared, Step}

pub record Crowd (A : Type 0) : Type 0 where
  pub shared : Shared A
  pub second_producer : Producer A
  pub second_consumer : Consumer A

-- A step of a second thread is one of the first in its place.
pub data CrowdStep {A : Type 0} (size : ℕ) (s : Crowd A) (t : Crowd A) : Type 0 where
  first : (u : Shared A) → Step size s.shared u → t ≡ record s { shared = u } → CrowdStep size s t
  pushing :
      (u : Shared A)
      → Step size (record s.shared { producer = s.second_producer }) u
      → t ≡ record s {
        shared = record u { producer = s.shared.producer };
        second_producer = u.producer;
      }
      → CrowdStep size s t
  popping :
      (u : Shared A)
      → Step size (record s.shared { consumer = s.second_consumer }) u
      → t ≡ record s {
        shared = record u { consumer = s.shared.consumer };
        second_consumer = u.consumer;
      }
      → CrowdStep size s t

pub data Leads {A : Type 0} (size : ℕ) (s : Crowd A) : Crowd A → Type 0 where
  here : Leads size s s
  later : {t u : Crowd A} → Leads size s t → CrowdStep size t u → Leads size s u

-- Four idle threads over a ring.
abbrev pub idle : {A : Type 0} → Queue A → List A → List A → Crowd A
idle q sent received = record {
  shared = record {
    ring = q;
    producer = Producer.idle;
    consumer = Consumer.idle;
    sent = sent;
    received = received;
  };
  second_producer = Producer.idle;
  second_consumer = Consumer.idle;
}

module _ {A : Type 0} (size : ℕ) where
  mine :
      {s t : Crowd A} (u : Shared A)
      → Leads size s t
      → Step size t.shared u
      → Leads size s (record t { shared = u })
  mine u l step = Leads.later l (CrowdStep.first u step refl)

  pushes :
      {s t : Crowd A} (u : Shared A)
      → Leads size s t
      → Step size (record t.shared { producer = t.second_producer }) u
      → Leads size s (record t {
        shared = record u { producer = t.shared.producer };
        second_producer = u.producer;
      })
  pushes u l step = Leads.later l (CrowdStep.pushing u step refl)

  pops :
      {s t : Crowd A} (u : Shared A)
      → Leads size s t
      → Step size (record t.shared { consumer = t.second_consumer }) u
      → Leads size s (record t {
        shared = record u { consumer = t.shared.consumer };
        second_consumer = u.consumer;
      })
  pops u l step = Leads.later l (CrowdStep.popping u step refl)

  -- The ring after both have written to one place and moved on by one.
  twice : Queue A → A → A → Queue A
  twice q x y = record q {
    buffer = write_slot (write_slot q.buffer q.write_pos x) q.write_pos y;
    write_pos = next_index size q.write_pos;
  }

  twice-lead :
      (q : Queue A) (sent received : List A) (x y : A)
      → next_index size q.write_pos ≢ q.read_pos
      → Leads size (idle q sent received) (idle (twice q x y) (sent ++ x ∷ [] ++ y ∷ []) received)
  unfolding twice
  twice-lead q sent received x y room =
      let w = q.write_pos in
      let a1 = mine _ Leads.here (Step.push_start x refl refl) in
      let a2 = mine _ a1 (Step.push_look x refl refl) in
      let b1 = pushes _ a2 (Step.push_start y refl refl) in
      let b2 = pushes _ b1 (Step.push_look y refl refl) in
      let a3 = mine _ b2 (Step.push_free x w refl room refl) in
      let a4 = mine _ a3 (Step.push_write x w refl refl) in
      let b3 = pushes _ a4 (Step.push_free y w refl room refl) in
      let b4 = pushes _ b3 (Step.push_write y w refl refl) in
      let a5 = mine _ b4 (Step.push_store x w refl refl) in
      pushes _ a5 (Step.push_store y w refl refl)

  write_slot-twice :
      (b : ℕ → A) (i : ℕ) (x y : A) → write_slot (write_slot b i x) i y ≡ write_slot b i y
  write_slot-twice b i x y = λ k j. slot j k
    where
      slot : (j : ℕ) → write_slot (write_slot b i x) i y j ≡ write_slot b i y j
      slot j = ground arith

  push-room :
      (q : Queue A) (x : A) → (push size q x).1 ≡ true → next_index size q.write_pos ≢ q.read_pos
  unfolding push
  push-room q x e = ground arith

  twice-push :
      (q : Queue A) (x y : A)
      → next_index size q.write_pos ≢ q.read_pos
      → twice q x y ≡ (push size q y).0
  unfolding twice push
  twice-push q x y room =
      ap (λ b. record q { buffer = b; write_pos = next_index size q.write_pos })
        (write_slot-twice q.buffer q.write_pos x y)
      ∙ ground (arith, room)

  -- On a sound ring with room, two producers may both push with success, and the queue holds only the
  -- item of one of them.
  pub two_pushes_lose :
      (q : Queue A) (sent received : List A) (x y : A)
      → IsRing size q
      → length (contents size q) < capacity size
      → (ring : Queue A) × Leads size
          (idle q sent received)
          (idle ring (sent ++ x ∷ [] ++ y ∷ []) received)
        × (contents size ring ≡ contents size q ++ y ∷ [])
  two_pushes_lose q sent received x y v h = elim (push_refines size q y v) [
    | inl (full, e) ↦ absurd (omega (arith, full))
    | inr (h', ok, e) ↦
        let room = push-room q y ok in
        (
          twice q x y,
          twice-lead q sent received x y room,
          ap (contents size) (twice-push q x y room) ∙ e,
        )
  ]

  shared-pop :
      (q : Queue A) (sent received : List A)
      → q.read_pos ≢ q.write_pos
      → Leads size (idle q sent received) (
          idle
            (record q { read_pos = next_index size q.read_pos })
            sent
            (received ++ q.buffer q.read_pos ∷ [] ++ q.buffer q.read_pos ∷ []))
  shared-pop q sent received present =
      let r = q.read_pos in
      let a1 = mine _ Leads.here (Step.pop_start refl refl) in
      let a2 = mine _ a1 (Step.pop_look refl refl) in
      let b1 = pops _ a2 (Step.pop_start refl refl) in
      let b2 = pops _ b1 (Step.pop_look refl refl) in
      let a3 = mine _ b2 (Step.pop_present r refl present refl) in
      let a4 = mine _ a3 (Step.pop_read r refl refl) in
      let b3 = pops _ a4 (Step.pop_present r refl present refl) in
      let b4 = pops _ b3 (Step.pop_read r refl refl) in
      let a5 = mine _ b4 (Step.pop_store r (q.buffer r) refl refl) in
      pops _ a5 (Step.pop_store r (q.buffer r) refl refl)

  pop-present :
      (q : Queue A) (x : A)
      → (pop size q).1 ≡ some x
      → (q.read_pos ≢ q.write_pos)
        × (q.buffer q.read_pos ≡ x)
        × ((pop size q).0 ≡ record q { read_pos = next_index size q.read_pos })
  unfolding pop
  pop-present q x e = ground arith

  -- On a sound ring that is not empty, two consumers may both pop with success, and both get the same
  -- item.
  pub two_pops_repeat :
      (q : Queue A) (sent received : List A) (x : A) (items : List A)
      → IsRing size q
      → contents size q ≡ x ∷ items
      → (ring : Queue A) × Leads size
          (idle q sent received)
          (idle ring sent (received ++ x ∷ [] ++ x ∷ []))
        × (contents size ring ≡ items)
  two_pops_repeat q sent received x items v h = elim (pop_refines size q v) [
    | inl (e, f) ↦ absurd (ground (arith, h, e))
    | inr (y, e, f) ↦
        let same : (y ≡ x) × (contents size (pop size q).0 ≡ items) = ground (arith, h, e) in
        let (present, item, ring) = pop-present q y f in
        (
          (pop size q).0,
          subst
              (λ (p : Queue A × A).
                Leads size (idle q sent received)
                  (idle p.0 sent (received ++ p.1 ∷ [] ++ p.1 ∷ [])))
              (ap₂ (λ a b. (a, b)) (sym ring) (item ∙ same.0)) (shared-pop q sent received present),
          same.1,
        )
  ]
