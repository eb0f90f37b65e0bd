-- ===== src/Tests/Interleaving.antt =====
-- A `pop` that has read its item while the next `push` is under way, on a ring of 4 places.
use trading_matcher.Base.{ℕ, ◌≡◌, refl, ◌≤◌, ◌==◌, if◌then◌else◌, [], ◌∷◌, ◌++◌, arith, length}
use trading_matcher.SpscQueue.{next_index, capacity}
use trading_matcher.SpscQueue.Fifo.{contents}
use trading_matcher.SpscQueue.Threads.{Producer, Consumer, Shared, Step, start, Reach}
use trading_matcher.SpscQueue.Interleaved.{Oldest, Reach-delivers}

abbrev memory : ℕ → ℕ
memory i = 0

abbrev first_sent : Shared ℕ
first_sent =
    let s = start 4 memory in
    record s {
      ring = record { write_pos = 1; buffer = λ j. if 0 == j then 10 else 0; read_pos = 0 };
      sent = 10 ∷ [];
    }

pushed : Reach 4 memory first_sent
unfolding next_index
pushed =
    let s0 = start 4 memory in
    let s1 = record s0 { producer = Producer.started 10 } in
    let s2 = record s0 { producer = Producer.looked 10 0 } in
    let s3 = record s0 { producer = Producer.free 10 0 } in
    let s4 = record first_sent {
      ring = record first_sent.ring { write_pos = 0 };
      producer = Producer.filled 10 0;
      sent = [];
    } in
    let r1 : Reach 4 memory s1 = Reach.later Reach.here (Step.push_start 10 refl refl) in
    let r2 : Reach 4 memory s2 = Reach.later r1 (Step.push_look 10 refl refl) in
    let r3 : Reach 4 memory s3 = Reach.later r2 (Step.push_free 10 0 refl (omega arith) refl) in
    let r4 : Reach 4 memory s4 = Reach.later r3 (Step.push_write 10 0 refl refl) in
    Reach.later r4 (Step.push_store 10 0 refl refl)

abbrev under_way : Shared ℕ
under_way = record first_sent { producer = Producer.looked 20 1; consumer = Consumer.taken 0 10 }

under_way-Reach : Reach 4 memory under_way
under_way-Reach =
    let s1 = record first_sent { consumer = Consumer.started } in
    let s2 = record s1 { consumer = Consumer.looked 0 } in
    let s3 = record s2 { producer = Producer.started 20 } in
    let s4 = record s3 { consumer = Consumer.present 0 } in
    let s5 = record s4 { producer = Producer.looked 20 1 } in
    let r1 : Reach 4 memory s1 = Reach.later pushed (Step.pop_start refl refl) in
    let r2 : Reach 4 memory s2 = Reach.later r1 (Step.pop_look refl refl) in
    let r3 : Reach 4 memory s3 = Reach.later r2 (Step.push_start 20 refl refl) in
    let r4 : Reach 4 memory s4 = Reach.later r3 (Step.pop_present 0 refl (omega arith) refl) in
    let r5 : Reach 4 memory s5 = Reach.later r4 (Step.push_look 20 refl refl) in
    Reach.later r5 (Step.pop_read 0 refl refl)

Reach-delivers_example :
    (under_way.sent ≡ under_way.received ++ contents 4 under_way.ring)
    × (length (contents 4 under_way.ring) ≤ capacity 4)
    × Oldest under_way.consumer (contents 4 under_way.ring)
Reach-delivers_example = Reach-delivers 4 2 memory under_way refl (omega arith) under_way-Reach
