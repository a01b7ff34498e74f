-- ===== src/Receiver/Peers.antt =====
-- The order of the scheduled peers: that of the bytes that remain for the first message of each.
use homa.Base.{
  ℕ, ◌≤◌, ◌<◌, ◌≡◌, refl, sym, ap, ◌∙◌, subst, inl, inr, Bool, true, false, not, Option, none, some,
  List, [], ◌∷◌, arith, ◌==◌, ==_iff, if◌then◌else◌, ==_refl, maybe, Bool-cases, All, IsSorted,
  IsSorted-congr,
}
use homa.Intrusive.{remove, prioritize, deprioritize, front, after}
use homa.Intrusive.Order.{insert-IsSorted, lowered-IsSorted, remove-IsSorted, agree_away, comp}
use homa.Intrusive.Firsts.{first, first_lowered, kept-IsSorted, raised-IsSorted}
use homa.Intrusive.Members.{
  occurrences, occurrences-prioritize, occurrences-deprioritize, occurrences-remove,
}
use homa.Receiver.Schedule.{set_peer, is_front}

-- 1 for a list that has a node.
abbrev pub has_any : List ℕ → ℕ
has_any [] = 0
has_any (x ∷ xs) = 1

pub has_any_member : (m : ℕ) (xs : List ℕ) → 0 < occurrences m xs → has_any xs ≡ 1
has_any_member m [] h = absurd (omega (arith, h))
has_any_member m (x ∷ xs) h = refl

-- The bytes that remain for the first message of a peer.
abbrev pub peer_key : (ℕ → ℕ) → (ℕ → List ℕ) → ℕ → ℕ
peer_key key table a = first key (table a)

-- The peers in their order: those that hold a message, once each.
pub record ArePeers (key : ℕ → ℕ) (table : ℕ → List ℕ) (peers : List ℕ) : Type 0 where
  pub sorted : IsSorted (peer_key key table) peers
  pub listed : (a : ℕ) → occurrences a peers ≡ has_any (table a)

-- The list of one peer is replaced, and the key of one message changed, which no other peer holds.
module _ (key key' : ℕ → ℕ) (p ip : ℕ) (table : ℕ → List ℕ) (ms ys peers : List ℕ)
    (mine : table ip ≡ ms) (same : (m : ℕ) → (m == p) ≡ false → key' m ≡ key m)
    (away : (a : ℕ) → (a == ip) ≡ false → occurrences p (table a) ≡ 0)
    (h : ArePeers key table peers) where
  abbrev pub table' : ℕ → List ℕ
  table' = set_peer ip ys table

  first_same : (ps : List ℕ) → occurrences p ps ≡ 0 → first key' ps ≡ first key ps
  first_same [] o = refl
  first_same (x ∷ ps) o = elim (Bool-cases (x == p)) [
    | inl e ↦ absurd (ground (arith, e))
    | inr e ↦ same x e
  ]

  others : (a : ℕ) → (a == ip) ≡ false → peer_key key' table' a ≡ peer_key key table a
  others a e = rw e (first_same (table a) (away a e))

  own : peer_key key' table' ip ≡ first key' ys
  own = rw ==_refl refl

  once : occurrences ip peers ≡ has_any ms
  once = h.listed ip ∙ ap has_any mine

  -- Peers that are listed as before, but for the one peer.
  listed_again :
      (peers' : List ℕ)
      → ((a : ℕ) → (a == ip) ≡ false → occurrences a peers' ≡ occurrences a peers)
      → occurrences ip peers' ≡ has_any ys
      → (a : ℕ) → occurrences a peers' ≡ has_any (table' a)
  listed_again peers' o i a = elim (Bool-cases (a == ip)) [
    | inl e ↦ rw e (rw (sym ((==_iff a ip).0 e)) at i)
    | inr e ↦ rw e (o a e ∙ h.listed a)
  ]

  -- A peer that held nothing comes in.
  pub inserted-ArePeers :
      ms ≡ []
      → has_any ys ≡ 1
      → ArePeers key' table' (deprioritize (comp (peer_key key' table')) ip (ip ∷ peers))
  inserted-ArePeers e any =
      let gone : occurrences ip peers ≡ 0 = once ∙ ap has_any e in
      record {
        sorted = insert-IsSorted (peer_key key' table') ip peers (
            IsSorted-congr (peer_key key table) (peer_key key' table') peers
              (agree_away (peer_key key table) (peer_key key' table') ip others peers gone)
              h.sorted);
        listed =
            listed_again _
              (λ a e. ground (
                arith,
                e,
                occurrences-deprioritize (comp (peer_key key' table')) a ip (ip ∷ peers),
                ==_iff ip a,
                ==_iff a ip,
              ))
              (ground (
                arith,
                any,
                gone,
                ==_refl ip,
                occurrences-deprioritize (comp (peer_key key' table')) ip ip (ip ∷ peers),
              ));
      }

  -- The first key of a peer that holds messages fell, or stayed.
  lowered_or_same :
      (b : Bool)
      → has_any ms ≡ 1
      → has_any ys ≡ 1
      → first key' ys ≤ first key ms
      → (b ≡ false → first key' ys ≡ first key ms)
      → ArePeers key' table'
          (if b then prioritize (comp (peer_key key' table')) ip peers else peers)
  lowered_or_same true any any' low eq = record {
    sorted =
        lowered-IsSorted (peer_key key table) (peer_key key' table') ip others peers (once ∙ any)
          h.sorted (omega (arith, own, ap (first key) mine, low));
    listed =
        listed_again _ (λ a e. occurrences-prioritize (comp (peer_key key' table')) a ip peers)
          (occurrences-prioritize (comp (peer_key key' table')) ip ip peers
            ∙ once
            ∙ any
            ∙ sym any');
  }
  lowered_or_same false any any' low eq = record {
    sorted =
        IsSorted-congr (peer_key key table) (peer_key key' table') peers (all_same_keys peers)
          h.sorted;
    listed = listed_again peers (λ a e. refl) (once ∙ any ∙ sym any');
  }
    where
      all_same_keys : (bs : List ℕ) → All (λ a. peer_key key table a ≡ peer_key key' table' a) bs
      all_same_keys [] = tt
      all_same_keys (a ∷ bs) = (
        elim (Bool-cases (a == ip)) [
          | inl e ↦
              subst (λ i. peer_key key table i ≡ peer_key key' table' i) (sym ((==_iff a ip).0 e))
                (ap (first key) mine ∙ sym (eq refl) ∙ sym own)
          | inr e ↦ sym (others a e)
        ],
        all_same_keys bs,
      )

  -- A message moved up in the list of a peer, or came into it.
  pub moved-ArePeers :
      (x : ℕ) (xs : List ℕ)
      → ms ≡ x ∷ xs
      → key' p ≤ key p
      → IsSorted key (x ∷ xs)
      → IsSorted key' ys
      → ((m : ℕ) → occurrences m (x ∷ xs) ≤ occurrences m ys)
      → ((m : ℕ) → (m == p) ≡ false → occurrences m ys ≤ occurrences m (x ∷ xs))
      → ArePeers key' table'
          (if is_front p ys then prioritize (comp (peer_key key' table')) ip peers else peers)
  moved-ArePeers x xs e low s t keeps outer =
      let (least, eq) = first_lowered key key' p x xs ys same low s t keeps outer in
      lowered_or_same (is_front p ys) (ap has_any e)
        (has_any_member x ys (let k = keeps x in ground (arith, k, ==_refl x)))
        (omega (arith, least, ap (first key) e)) (λ f. eq f ∙ sym (ap (first key) e))

  -- A message left the list of a peer, which holds others.
  pub reordered-ArePeers :
      (q : ℕ) (qs : List ℕ)
      → ys ≡ q ∷ qs
      → has_any ms ≡ 1
      → first key ms ≤ first key' ys
      → ArePeers key' table' (
          maybe peers
            (λ n.
              if comp (peer_key key' table') n ip
              then deprioritize (comp (peer_key key' table')) ip peers
              else peers)
            (front (after ip peers)))
  reordered-ArePeers q qs e any up = by_next (front (after ip peers)) refl
    where
      key_up : peer_key key table ip ≤ peer_key key' table' ip
      key_up = omega (arith, own, ap (first key) mine, up)

      kept :
          maybe true (λ m. not (comp (peer_key key' table') m ip)) (front (after ip peers)) ≡ true
          → ArePeers key' table' peers
      kept f = record {
        sorted =
            kept-IsSorted (peer_key key table) (peer_key key' table') ip others key_up peers
              (once ∙ any) h.sorted f;
        listed = listed_again peers (λ a e. refl) (once ∙ any ∙ sym (ap has_any e));
      }

      by_next :
          (n : Option ℕ)
          → front (after ip peers) ≡ n
          → ArePeers key' table' (
              maybe peers
                (λ n.
                  if comp (peer_key key' table') n ip
                  then deprioritize (comp (peer_key key' table')) ip peers
                  else peers)
                n)
      by_next none f = kept (cc f)
      by_next (some n) f = elim (Bool-cases (comp (peer_key key' table') n ip)) [
        | inr g ↦ rw g (kept (rw f (rw g refl)))
        | inl g ↦ rw g (record {
          sorted =
              raised-IsSorted (peer_key key table) (peer_key key' table') ip others key_up peers
                (once ∙ any) h.sorted;
          listed =
              listed_again _
                (λ a e. occurrences-deprioritize (comp (peer_key key' table')) a ip peers)
                (occurrences-deprioritize (comp (peer_key key' table')) ip ip peers
                  ∙ once
                  ∙ any
                  ∙ sym (ap has_any e));
        })
      ]

  -- A message left the list of a peer, which then holds none.
  pub emptied-ArePeers : ys ≡ [] → has_any ms ≡ 1 → ArePeers key' table' (remove ip peers)
  emptied-ArePeers e any =
      let gone : occurrences ip (remove ip peers) ≡ 0 =
        ground (arith, occurrences-remove ip ip peers, once, any, ==_refl ip) in
      record {
        sorted =
            IsSorted-congr (peer_key key table) (peer_key key' table') (remove ip peers)
              (agree_away (peer_key key table) (peer_key key' table') ip others (remove ip peers)
                gone)
              (remove-IsSorted (peer_key key table) ip peers h.sorted);
        listed =
            listed_again (remove ip peers)
              (λ a f. ground (arith, f, occurrences-remove a ip peers, ==_iff ip a, ==_iff a ip))
              (gone ∙ sym (ap has_any e));
      }
