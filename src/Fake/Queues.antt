-- ===== src/Fake/Queues.antt =====
-- src/Drivers/Fake/FakeDriver.cc: the interface of a driver is a priority queue.
use homa.Base.{
  ℕ, zero, suc, ◌-◌, ◌≤◌, ◌<◌, ◌≡◌, refl, sym, ap, ◌∙◌, subst, inl, inr, Bool, true, false, ◌&&◌,
  not, Option, none, some, List, [], ◌∷◌, ◌++◌, arith, leb, ◌==◌, if◌then◌else◌, ==_iff, ==_refl,
  maybe, Bool-cases, Option-cases, length, append_assoc,
}
use homa.Base.{take, drop, length-take, take-append, drop-append}
use homa.Fake.{
  FakeNetwork, send_packet, FakePacket, FakeNic, push, drain, receive_loop, receive_packets,
  num_priorities,
}

-- The abstract interface: the packets with their priorities, in the order they will be received.
abbrev pub Tagged : Type 0
Tagged = ℕ × FakePacket

-- A packet comes behind all of at least its priority.
abbrev pub insert : Tagged → List Tagged → List Tagged
insert t [] = t ∷ []
insert t (u ∷ us) = if leb t.0 u.0 then u ∷ insert t us else t ∷ u ∷ us

abbrev pub packets_of : List Tagged → List FakePacket
packets_of [] = []
packets_of (t ∷ ts) = t.1 ∷ packets_of ts

abbrev pub tagged : ℕ → List FakePacket → List Tagged
tagged i [] = []
tagged i (p ∷ ps) = (i, p) ∷ tagged i ps

-- What the queues below a priority stand for.
abbrev pub view : ℕ → (ℕ → List FakePacket) → List Tagged
view zero q = []
view (suc i) q = tagged i (q i) ++ view i q

-- Queues that are the same below a priority stand for the same.
view-congr :
    (n : ℕ) (q q' : ℕ → List FakePacket) → ((i : ℕ) → i < n → q i ≡ q' i) → view n q ≡ view n q'
view-congr zero q q' same = refl
view-congr (suc n) q q' same =
    rw (same n (omega arith), view-congr n q q' (λ i below. same i (omega arith))) refl

-- An insertion passes packets of at least the priority, and stops at the first below it.
insert-pass :
    (i p : ℕ) (x : FakePacket) (xs : List FakePacket) (ts : List Tagged)
    → p ≤ i
    → insert (p, x) (tagged i xs ++ ts) ≡ tagged i xs ++ insert (p, x) ts
insert-pass i p x [] ts le = refl
insert-pass i p x (y ∷ ys) ts le =
    let passes : leb p i ≡ true = ground arith in rw (passes, insert-pass i p x ys ts le) refl

insert-stop_tagged :
    (i p : ℕ) (x : FakePacket) (xs : List FakePacket) (ts : List Tagged)
    → i < p
    → insert (p, x) ts ≡ (p, x) ∷ ts
    → insert (p, x) (tagged i xs ++ ts) ≡ (p, x) ∷ tagged i xs ++ ts
insert-stop_tagged i p x [] ts lt e = e
insert-stop_tagged i p x (y ∷ ys) ts lt e =
    let stops : leb p i ≡ false = ground arith in rw stops refl

insert-stop :
    (n p : ℕ) (x : FakePacket) (q : ℕ → List FakePacket)
    → n ≤ p
    → insert (p, x) (view n q) ≡ (p, x) ∷ view n q
insert-stop zero p x q le = refl
insert-stop (suc n) p x q le =
    insert-stop_tagged n p x (q n) (view n q) (omega arith) (insert-stop n p x q (omega arith))

tagged-append : (i : ℕ) (xs ys : List FakePacket) → tagged i (xs ++ ys) ≡ tagged i xs ++ tagged i ys
tagged-append i [] ys = refl
tagged-append i (x ∷ xs) ys = rw (tagged-append i xs ys) refl

push-view_top :
    (n : ℕ) (x : FakePacket) (nic : FakeNic)
    → view (suc n) (push n x nic).priority_queue ≡ insert (n, x) (view (suc n) nic.priority_queue)
unfolding push
push-view_top n x nic =
    let q = nic.priority_queue in
    let below : view n (push n x nic).priority_queue ≡ view n q =
      view-congr n (push n x nic).priority_queue q
        (λ i lt. let away : (i == n) ≡ false = ground arith in rw away refl) in
    rw (==_refl n, below, tagged-append n (q n) (x ∷ []))
      (append_assoc (tagged n (q n)) ((n, x) ∷ []) (view n q)
        ∙ ap (λ ts. tagged n (q n) ++ ts) (sym (insert-stop n n x q (omega arith)))
        ∙ sym (insert-pass n n x (q n) (view n q) (omega arith)))

push-view_next :
    (n p : ℕ) (x : FakePacket) (nic : FakeNic)
    → (n == p) ≡ false
    → p < n
    → view n (push p x nic).priority_queue ≡ insert (p, x) (view n nic.priority_queue)
    → view (suc n) (push p x nic).priority_queue ≡ insert (p, x) (view (suc n) nic.priority_queue)
unfolding push
push-view_next n p x nic away below e =
    rw (away, e)
      (sym (insert-pass n p x (nic.priority_queue n) (view n nic.priority_queue) (omega arith)))

push-view_loop :
    (n p : ℕ) (x : FakePacket) (nic : FakeNic)
    → p < n
    → view n (push p x nic).priority_queue ≡ insert (p, x) (view n nic.priority_queue)
push-view_loop zero p x nic below = absurd (omega arith)
push-view_loop (suc n) p x nic below = elim (Bool-cases (n == p)) [
  | inl e ↦
      let same : n ≡ p = (==_iff n p).0 e in
      subst
        (λ k.
          view (suc n) (push k x nic).priority_queue
          ≡ insert (k, x) (view (suc n) nic.priority_queue))
        same (push-view_top n x nic)
  | inr e ↦ push-view_next n p x nic e (ground arith) (push-view_loop n p x nic (ground arith))
]

take-tagged : (n i : ℕ) (xs : List FakePacket) → packets_of (take n (tagged i xs)) ≡ take n xs
take-tagged n i [] = refl
take-tagged zero i (x ∷ xs) = refl
take-tagged (suc n) i (x ∷ xs) = ap (λ ys. x ∷ ys) (take-tagged n i xs)

drop-tagged : (n i : ℕ) (xs : List FakePacket) → drop n (tagged i xs) ≡ tagged i (drop n xs)
drop-tagged n i [] = refl
drop-tagged zero i (x ∷ xs) = refl
drop-tagged (suc n) i (x ∷ xs) = drop-tagged n i xs

length-tagged : (i : ℕ) (xs : List FakePacket) → length (tagged i xs) ≡ length xs
length-tagged i [] = refl
length-tagged i (x ∷ xs) = omega (arith, length-tagged i xs)

packets_of-append : (ts us : List Tagged) → packets_of (ts ++ us) ≡ packets_of ts ++ packets_of us
packets_of-append [] us = refl
packets_of-append (t ∷ ts) us = ap (λ ps. t.1 ∷ ps) (packets_of-append ts us)

drain_lem : (n : ℕ) (q : List FakePacket) → drain n q ≡ (take n q, drop n q)
unfolding drain
drain_lem zero [] = refl
drain_lem zero (p ∷ q) = refl
drain_lem (suc n) [] = refl
drain_lem (suc n) (p ∷ q) = rw (drain_lem n q) refl

-- What the loop over the priorities receives, and what it leaves.
record Received (n left : ℕ) (nic : FakeNic) (r : List FakePacket × FakeNic) : Type 0 where
  packets : r.0 ≡ packets_of (take left (view n nic.priority_queue))
  rest : view n r.1.priority_queue ≡ drop left (view n nic.priority_queue)
  above : (j : ℕ) → n ≤ j → r.1.priority_queue j ≡ nic.priority_queue j

receive_loop_lem : (n left : ℕ) (nic : FakeNic) → Received n left nic (receive_loop n left nic)
unfolding receive_loop
receive_loop_lem zero left nic = record { packets = refl; rest = refl; above = λ j le. refl }
receive_loop_lem (suc i) left nic =
    let q = nic.priority_queue in
    let taken : List FakePacket = take left (q i) in
    let nic' : FakeNic = record { priority_queue = λ j. if j == i then drop left (q i) else q j } in
    let n : ℕ = left - length taken in
    let later : ℕ = left - length (tagged i (q i)) in
    let same_left : n ≡ later = omega (arith, length-take left (q i), length-tagged i (q i)) in
    let r = receive_loop_lem i n nic' in
    let below : view i nic'.priority_queue ≡ view i q =
      view-congr i nic'.priority_queue q
        (λ j lt. let away : (j == i) ≡ false = ground arith in rw away refl) in
    rw (drain_lem left (q i)) (record {
      packets =
          ap (λ ps. taken ++ ps)
            (r.packets
              ∙ ap (λ ts. packets_of (take n ts)) below
              ∙ ap (λ k. packets_of (take k (view i q))) same_left)
          ∙ ap (λ ps. ps ++ packets_of (take later (view i q))) (sym (take-tagged left i (q i)))
          ∙ sym (packets_of-append (take left (tagged i (q i))) (take later (view i q)))
          ∙ ap packets_of (sym (take-append left (tagged i (q i)) (view i q)));
      rest =
          ap (λ ps. tagged i ps ++ view i (receive_loop i n nic').1.priority_queue)
            (r.above i (omega arith) ∙ rw (==_refl i) refl)
          ∙ ap (λ ts. tagged i (drop left (q i)) ++ ts)
              (r.rest ∙ ap (drop n) below ∙ ap (λ k. drop k (view i q)) same_left)
          ∙ ap (λ ts. ts ++ drop later (view i q)) (sym (drop-tagged left i (q i)))
          ∙ sym (drop-append left (tagged i (q i)) (view i q));
      above = λ j le.
          r.above j (omega arith) ∙ (let away : (j == i) ≡ false = ground arith in rw away refl);
    })

-- The packets of an interface, as the priority queue that it stands for.
abbrev pub queue_of : FakeNic → List Tagged
queue_of nic = view num_priorities nic.priority_queue

abbrev pub map_queue : {A B : Type 0} → (A → B) → Option A → Option B
map_queue f o = maybe none (λ a. some (f a)) o

-- The queues of a network, by address.
abbrev pub contents : FakeNetwork → ℕ → Option (List Tagged)
contents s a = map_queue queue_of (s.network a)

-- A packet that is sent with one of the eight priorities, and not lost, stands in the queue of its
-- destination, if there is one, behind all packets of at least its priority and before the others, and
-- names its source; no other queue changes. `receivePackets` takes the given number of packets from the front
-- of a queue, or all if there are fewer, and leaves the others in their order.
pub network_refines :
    (lost : Bool) (packet : FakePacket) (priority src dst : ℕ) (s : FakeNetwork)
    → priority < num_priorities
    → ((a : ℕ)
        → contents (send_packet lost packet priority src dst s) a ≡ (
            if not lost && a == dst
            then map_queue (insert (priority, record packet { source_ip = src })) (contents s a)
            else contents s a))
      × ((nic : FakeNic) (max_packets : ℕ)
          → ((receive_packets max_packets nic).0 ≡ packets_of (take max_packets (queue_of nic)))
            × (queue_of (receive_packets max_packets nic).1 ≡ drop max_packets (queue_of nic)))
unfolding receive_packets send_packet
network_refines true packet priority src dst s below =
    (λ a. refl, λ nic n. let r = receive_loop_lem num_priorities n nic in (r.packets, r.rest))
network_refines false packet priority src dst s below = (
  λ a. elim (Option-cases (s.network dst)) [
    | inl e ↦ elim (Bool-cases (a == dst)) [
      | inl at ↦
          let same : a ≡ dst = (==_iff a dst).0 at in
          rw e (
            rw at (
              subst
                (λ k.
                  contents s k
                  ≡ map_queue (insert (priority, record packet { source_ip = src })) (contents s k))
                (sym same) (rw e refl)))
      | inr off ↦ rw e (rw off refl)
    ]
    | inr (nic, e) ↦ elim (Bool-cases (a == dst)) [
      | inl at ↦
          let same : a ≡ dst = (==_iff a dst).0 at in
          let there : s.network a ≡ some nic = ap s.network same ∙ e in
          rw e (
            rw (at, there)
              (ap some (
                push-view_loop num_priorities priority (record packet { source_ip = src }) nic
                  below)))
      | inr off ↦ rw e (rw off refl)
    ]
  ],
  λ nic n. let r = receive_loop_lem num_priorities n nic in (r.packets, r.rest),
)
