-- ===== src/Engine/Packets/Latest.antt =====
-- The queues of the tracks behind `_install_packets`.
use re_takehome_submission.Common.{
  ℕ, zero, suc, ◌∙◌, ◌≤◌, ◌≡◌, refl, ap, ◌≢◌, Bool, true, false, Option, none, List, [], ◌∷◌, arith,
  is_empty, length, any,
}
use re_takehome_submission.Common.Text.{Text, text_eq, strip}
use re_takehome_submission.Strategies.{PeerPacket}
use re_takehome_submission.Engine.State.{
  Queued, TrackState, PacketEvent, has_track, update_track, update_at,
}
use re_takehome_submission.Engine.State.Lookup.{
  has_track-update, find_track-update_self, find_track-update_ne,
}
use re_takehome_submission.Engine.Packets.{
  Mail, packet_error, set_queue, mark_replaced, queue_of, deliver, install_packets,
}

length-update_at {ℓ} :
    {A : Type ℓ} (n : ℕ) (f : A → A) (xs : List A) → length (update_at n f xs) ≡ length xs
unfolding update_at
length-update_at n f [] = refl
length-update_at zero f (x ∷ xs) = refl
length-update_at (suc n) f (x ∷ xs) = ap suc (length-update_at n f xs)

length-mark_replaced :
    (qs : List Queued) (es : List PacketEvent) → length (mark_replaced qs es) ≡ length es
unfolding mark_replaced
length-mark_replaced [] es = refl
length-mark_replaced (q ∷ qs) es =
    length-mark_replaced qs (update_at q.event _ es) ∙ length-update_at q.event _ es

queue_of-set_self :
    (m : Text) (qs : List Queued) (ts : List TrackState)
    → has_track m ts ≡ true
    → queue_of m (update_track m (set_queue qs) ts) ≡ qs
unfolding queue_of
queue_of-set_self m qs ts h =
    let (t, e, e') = find_track-update_self m (set_queue qs) ts (λ t. refl) h in rw (e', queue_of)

queue_of-set_ne :
    (m n : Text) (qs : List Queued) (ts : List TrackState)
    → m ≢ n
    → queue_of n (update_track m (set_queue qs) ts) ≡ queue_of n ts
unfolding queue_of
queue_of-set_ne m n qs ts h =
    rw (find_track-update_ne m n (set_queue qs) ts (λ t. refl) h, queue_of)

-- After the delivery of a progress packet to a known model, that model's queue holds this packet
-- alone, with the place of its own event, and every other queue is as before.
pub queue_of-deliver_latest :
    (round : ℕ) (elapsed : Option ℕ) (p : PeerPacket) (m : Mail) (other : Text)
    → has_track p.target_model m.tracks ≡ true
    → p.target_model ≢ other
    → let after = deliver round true elapsed p m in
      (queue_of p.target_model after.tracks ≡ record { packet = p; event = length m.events } ∷ [])
      × (queue_of other after.tracks ≡ queue_of other m.tracks)
unfolding deliver
queue_of-deliver_latest round elapsed p m other h ne = (
  queue_of-set_self p.target_model _ m.tracks h
      ∙ rw (length-mark_replaced (queue_of p.target_model m.tracks) m.events),
  queue_of-set_ne p.target_model other _ m.tracks ne,
)

-- The checks that one packet of a strategy passes.
pub record IsDeliverable (limit : ℕ) (ts : List TrackState) (p : PeerPacket) : Type 0 where
  pub known_target : has_track p.target_model ts ≡ true
  pub known_source : has_track p.source_model ts ≡ true
  pub crosses : text_eq p.target_model p.source_model ≡ false
  pub nonblank : is_empty (strip p.content) ≡ false
  pub bounded : length p.content ≤ limit

pub IsDeliverable→no_error :
    (limit : ℕ) (targets : List Text) (ts : List TrackState) (p : PeerPacket)
    → IsDeliverable limit ts p
    → any (text_eq p.target_model) targets ≡ false
    → packet_error limit targets ts p ≡ none
unfolding packet_error
IsDeliverable→no_error limit targets ts p d h = ground arith

has_track-deliver :
    (n : Text) (round : ℕ) (latest : Bool) (elapsed : Option ℕ) (p : PeerPacket) (m : Mail)
    → has_track n (deliver round latest elapsed p m).tracks ≡ has_track n m.tracks
unfolding deliver
has_track-deliver n round latest elapsed p m =
    has_track-update p.target_model n (set_queue _) m.tracks (λ t. refl)

-- A single deliverable packet is delivered.
pub install_one :
    (limit round : ℕ) (latest : Bool) (elapsed : Option ℕ) (p : PeerPacket) (m : Mail)
    → IsDeliverable limit m.tracks p
    → install_packets limit round latest elapsed [] (p ∷ []) m
      ≡ (none, deliver round latest elapsed p m)
unfolding install_packets
install_one limit round latest elapsed p m d =
    rw (IsDeliverable→no_error limit [] m.tracks p d refl, install_packets)

-- Two deliverable packets with different targets are both delivered.
pub install_two :
    (limit round : ℕ) (latest : Bool) (elapsed : Option ℕ) (p q : PeerPacket) (m : Mail)
    → IsDeliverable limit m.tracks p
    → IsDeliverable limit m.tracks q
    → text_eq q.target_model p.target_model ≡ false
    → install_packets limit round latest elapsed [] (p ∷ q ∷ []) m
      ≡ (none, deliver round latest elapsed q (deliver round latest elapsed p m))
unfolding install_packets
install_two limit round latest elapsed p q m d e ne =
    let m' = deliver round latest elapsed p m in
    let e' : IsDeliverable limit m'.tracks q = record {
      known_target = has_track-deliver q.target_model round latest elapsed p m ∙ e.known_target;
      known_source = has_track-deliver q.source_model round latest elapsed p m ∙ e.known_source;
      crosses = e.crosses;
      nonblank = e.nonblank;
      bounded = e.bounded;
    } in
    rw (IsDeliverable→no_error limit [] m.tracks p d refl, install_packets)
      (rw (
        IsDeliverable→no_error limit (p.target_model ∷ []) m'.tracks q e' (ground arith),
        install_packets,
      ))
