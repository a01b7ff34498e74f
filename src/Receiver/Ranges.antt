-- ===== src/Receiver/Ranges.antt =====
-- What the ranges of packets in RESENDs and in releases cover.
use homa.Base.{
  ℕ, zero, suc, ◌+◌, ◌≤◌, ◌<◌, ◌≡◌, refl, sym, ap, ◌∙◌, subst, ◌⊎◌, inl, inr, Bool, true, false,
  ◌&&◌, not, some, List, [], ◌∷◌, ◌++◌, arith, ltb, leb, ◌==◌, if◌then◌else◌, ==_iff, ==_refl,
  maybe, Bool-cases, length, length-append,
}
use homa.Receiver.{Message, DriverPacket, max_message_packets}
use homa.Receiver.Messages.{
  set_packet, Range, close_range, runs, is_stored, release_loop, released_ranges, size,
}
use homa.Receiver.Expiry.{missing_ranges}

-- So many indexes from the first on.
abbrev pub span : (first num : ℕ) → List ℕ
span first zero = []
span first (suc n) = first ∷ span (first + 1) n

-- The indexes in some ranges, in order.
unfoldable pub indexes : List Range → List ℕ
indexes [] = []
indexes (r ∷ rs) = span r.index r.num ++ indexes rs

-- The indexes at which a test holds, among so many from the first on.
unfoldable pub hits : (ℕ → Bool) → (n first : ℕ) → List ℕ
hits test zero first = []
hits test (suc n) first =
    let rest = hits test n (first + 1) in if test first then first ∷ rest else rest

span-append :
    (first n : ℕ) (xs : List ℕ) → span first n ++ (first + n) ∷ xs ≡ span first (suc n) ++ xs
span-append first zero xs = ap (λ k. k ∷ xs) (omega arith)
span-append first (suc n) xs =
    ap (λ ys. first ∷ ys)
      (subst (λ k. span (first + 1) n ++ k ∷ xs ≡ span (first + 1) (suc n) ++ xs) (omega arith)
        (span-append (first + 1) n xs))

one_more : (k : ℕ) → k + 1 ≡ suc k
one_more k = omega arith

suc_not_zero : (k : ℕ) → (suc k == 0) ≡ false
suc_not_zero k = ground arith

-- The open run, if any, stands before the indexes that are still to come.
runs_from :
    (test : ℕ → Bool) (n i index num : ℕ)
    → num ≡ 0 ⊎ index + num ≡ i
    → indexes (runs test n i index num) ≡ span index num ++ hits test n i
unfolding runs hits indexes
runs_from test zero i index zero e = refl
runs_from test zero i index (suc k) e = rw (suc_not_zero k) refl
runs_from test (suc n) i index zero e = elim (Bool-cases (test i)) [
  | inl t ↦ rw t (runs_from test n (i + 1) i 1 (inr refl))
  | inr t ↦ rw t (runs_from test n (i + 1) index 0 (inl refl))
]
runs_from test (suc n) i index (suc k) e = elim (Bool-cases (test i)) [
  | inl t ↦
      rw (t, suc_not_zero k)
        (runs_from test n (i + 1) index (suc k + 1) (inr (ground arith))
          ∙ ap (λ m. span index m ++ hits test n (i + 1)) (one_more (suc k))
          ∙ sym (
              subst
                (λ j.
                  span index (suc k) ++ j ∷ hits test n (i + 1)
                  ≡ span index (suc (suc k)) ++ hits test n (i + 1))
                (ground arith) (span-append index (suc k) (hits test n (i + 1)))))
  | inr t ↦
      rw (t, suc_not_zero k)
        (ap (λ ys. span index (suc k) ++ ys) (runs_from test n (i + 1) index 0 (inl refl)))
]

-- The loop of the RESENDs finds exactly the indexes at which the test holds, each once, in order.
pub runs_lem : (test : ℕ → Bool) (n i : ℕ) → indexes (runs test n i 0 0) ≡ hits test n i
runs_lem test n i = runs_from test n i 0 0 (inl refl)

runs_none :
    (test : ℕ → Bool) (n i index num : ℕ)
    → length (hits test n i) ≡ 0
    → runs test n i index num ≡ close_range index num []
unfolding runs hits
runs_none test zero i index num e = refl
runs_none test (suc n) i index num e = elim (Bool-cases (test i)) [
  | inl t ↦ ground (arith, t, e)
  | inr t ↦ rw t (
      ap (λ rs. close_range index num rs) (runs_none test n (i + 1) index 0 (ground (arith, t, e))))
]

-- Stopping at the last packet that is stored leaves nothing out.
release_from :
    (m : Message) (n i index num found : ℕ)
    → found + length (hits (is_stored m) n i) ≡ m.num_packets
    → release_loop m n i index num found ≡ runs (is_stored m) n i index num
unfolding release_loop runs
release_from m zero i index num found e = refl
release_from m (suc n) i index num found e = elim (Bool-cases (ltb found m.num_packets)) [
  | inl more ↦ elim (Bool-cases (is_stored m i)) [
    | inl t ↦
        rw (more, t)
          (release_from m n (i + 1) (if num == 0 then i else index) (num + 1) (found + 1)
            (unfold hits in ground (arith, t, e)))
    | inr t ↦
        rw (more, t)
          (ap (λ rs. close_range index num rs)
            (release_from m n (i + 1) index 0 found (unfold hits in ground (arith, t, e))))
  ]
  | inr all ↦ rw all (sym (runs_none (is_stored m) (suc n) i index num (ground (arith, all, e))))
]

length-span : (first n : ℕ) → length (span first n) ≡ n
length-span first zero = refl
length-span first (suc n) = ap suc (length-span (first + 1) n)

size_lem : (rs : List Range) → size rs ≡ length (indexes rs)
unfolding size indexes
size_lem [] = refl
size_lem (r ∷ rs) =
    omega (
      arith,
      length-append (span r.index r.num) (indexes rs),
      length-span r.index r.num,
      size_lem rs,
    )

-- `numPackets` counts the packets that are stored.
unfoldable pub IsCounted : Message → Type 0
IsCounted m = length (hits (is_stored m) max_message_packets 0) ≡ m.num_packets

-- The destructor of a message gives back exactly the packets that are stored in it, each once, where
-- `numPackets` counts them.
pub released_ranges_lem :
    (m : Message)
    → IsCounted m
    → indexes (released_ranges m) ≡ hits (is_stored m) max_message_packets 0
      × size (released_ranges m) ≡ m.num_packets
unfolding released_ranges IsCounted
released_ranges_lem m counted =
    let same = release_from m max_message_packets 0 0 0 0 (omega (arith, counted)) in
    let exact = ap indexes same ∙ runs_lem (is_stored m) max_message_packets 0 in
    (exact, size_lem (released_ranges m) ∙ ap length exact ∙ counted)

-- One more index at which a test holds makes one more hit, if the index lies in the range.
length-hits :
    (test test' : ℕ → Bool) (k : ℕ)
    → test k ≡ false
    → test' k ≡ true
    → ((j : ℕ) → (j == k) ≡ false → test' j ≡ test j)
    → (n i : ℕ)
    → length (hits test' n i) ≡ length (hits test n i) + (if leb i k && ltb k (i + n) then 1 else 0)
unfolding hits
length-hits test test' k e e' same zero i = ground arith
length-hits test test' k e e' same (suc n) i = elim (Bool-cases (i == k)) [
  | inl here ↦
      rw
        (
          subst (λ j. test j ≡ false) (sym ((==_iff i k).0 here)) e,
          subst (λ j. test' j ≡ true) (sym ((==_iff i k).0 here)) e',
        )
        (ground (arith, here, length-hits test test' k e e' same n (i + 1)))
  | inr away ↦ elim (Bool-cases (test i)) [
    | inl t ↦
        rw (same i away, t) (ground (arith, away, length-hits test test' k e e' same n (i + 1)))
    | inr t ↦
        rw (same i away, t) (ground (arith, away, length-hits test test' k e e' same n (i + 1)))
  ]
]

-- Storing a packet keeps the count: the packet is refused, and the message stays as it was, or there
-- is one packet more.
pub set_packet-IsCounted :
    (index : ℕ) (packet : DriverPacket) (m : Message)
    → IsCounted m
    → index < max_message_packets
    → (set_packet index packet m ≡ some (false, m))
      ⊎ ((m' : Message) × (set_packet index packet m ≡ some (true, m'))
          × IsCounted m'
          × (m'.num_packets ≡ m.num_packets + 1))
unfolding set_packet IsCounted
set_packet-IsCounted index packet m counted low = elim (Bool-cases (is_stored m index)) [
  | inl full ↦ inl (rw (inside, full) refl)
  | inr free ↦ inr (
    record m {
      packets = λ i. if i == index then some packet else m.packets i;
      num_packets = m.num_packets + 1;
    },
    rw (inside, free) refl,
    ground (
      arith,
      length-hits (is_stored m)
          (λ j. maybe false (λ _. true) (if j == index then some packet else m.packets j)) index
          free (rw ==_refl refl) (λ j away. rw away refl) max_message_packets 0,
      counted,
    ),
    refl,
  )
]
  where
    inside : ltb index 1024 ≡ true
    inside = ground arith

within : (limit : ℕ) → limit ≤ 1024 → leb limit 1024 ≡ true
within limit le = ground arith

-- RESENDs ask for exactly the packets below the limit that are missing, each once, in order, where the
-- limit is at most 1024.
pub missing_ranges_lem :
    (m : Message) (limit : ℕ)
    → limit ≤ max_message_packets
    → (ranges : List Range) × (missing_ranges m limit ≡ some ranges)
      × (indexes ranges ≡ hits (λ i. not (is_stored m i)) limit 0)
unfolding missing_ranges
missing_ranges_lem m limit le =
    (runs (λ i. not (is_stored m i)) limit 0 0 0, rw (within limit le) refl, runs_lem _ limit 0)
