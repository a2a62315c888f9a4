-- ===== src/Replicator/Peers.antt =====
-- The address book: what a heartbeat may change, and what a removal leaves.
use mariamesh.Base.{
  ℕ, ◌≡◌, ◌≢◌, inl, inr, refl, Bool, true, false, not, ◌&&◌, if◌then◌else◌, Str, Str-discrete, List,
  [], ◌∷◌, lookup, lookup-insert, lookup-insert_self, lookup-erase, Option, none, some,
  Option-cases, arith,
}
use mariamesh.Changelog.{is_empty}
use mariamesh.Protocol.{Envelope, Heartbeat}
use mariamesh.Replicator.{
  Replicator, PeerEntry, add_peer, remove_peer, learn_peer, node_id_for_addr, bind_sender,
  read_heartbeat, on_datagram,
}
use mariamesh.Store.Nodes.{same_text}

learn_peer_keeps :
    (id addr q : Str) (e : PeerEntry) (r : Replicator)
    → lookup Str-discrete q r.peers ≡ some e
    → lookup Str-discrete q (learn_peer id addr r).peers ≡ some e
unfolding learn_peer add_peer
learn_peer_keeps id addr q e r h = ground (
  arith,
  Option-cases (lookup Str-discrete id r.peers),
  lookup-insert Str-discrete q id (record { node_id = id; addr = addr }) r.peers,
)

-- The datagrams that arrive, each with the time, the certificate's node and the frame.
abbrev pub on_datagrams :
    (Str → Option Envelope)
    → (Str → Heartbeat × Bool)
    → List (ℕ × Str × Str)
    → Replicator
    → Replicator
on_datagrams unmarshal unmarshal_body [] r = r
on_datagrams unmarshal unmarshal_body ((now, cert, frame) ∷ ds) r =
    on_datagrams unmarshal unmarshal_body ds (on_datagram unmarshal unmarshal_body now cert frame r)

bind_sender_keeps :
    (cert q : Str) (hb : Option (Heartbeat × Bool)) (e : PeerEntry) (r r' : Replicator)
    → bind_sender cert hb r ≡ some r'
    → lookup Str-discrete q r.peers ≡ some e
    → lookup Str-discrete q r'.peers ≡ some e
unfolding bind_sender
bind_sender_keeps cert q none e r r' h l = ground arith
bind_sender_keeps cert q (some (hb, decoded)) e r r' h l =
    ground (arith, learn_peer_keeps hb.node_id hb.addr q e r l)

on_datagram_keeps :
    (unmarshal : Str → Option Envelope) (body : Str → Heartbeat × Bool) (now : ℕ)
    (cert frame q : Str) (e : PeerEntry) (r : Replicator)
    → lookup Str-discrete q r.peers ≡ some e
    → lookup Str-discrete q (on_datagram unmarshal body now cert frame r).peers ≡ some e
unfolding on_datagram
on_datagram_keeps unmarshal body now cert frame q e r h =
    let hb = read_heartbeat unmarshal body frame r.members.manager.namespace in
    elim (Option-cases (bind_sender cert hb r)) [
      | inl n ↦ ground arith
      | inr (r', s) ↦ ground (arith, bind_sender_keeps cert q hb e r r' s h)
    ]

-- No datagrams, whatever they claim, change the address that is stored for a known peer.
pub on_datagrams_keeps :
    (unmarshal : Str → Option Envelope) (body : Str → Heartbeat × Bool) (ds : List (ℕ × Str × Str))
    (q : Str) (e : PeerEntry) (r : Replicator)
    → lookup Str-discrete q r.peers ≡ some e
    → lookup Str-discrete q (on_datagrams unmarshal body ds r).peers ≡ some e
on_datagrams_keeps unmarshal body [] q e r h = h
on_datagrams_keeps unmarshal body ((now, cert, frame) ∷ ds) q e r h =
    on_datagrams_keeps unmarshal body ds q e (on_datagram unmarshal body now cert frame r)
      (on_datagram_keeps unmarshal body now cert frame q e r h)

-- The entry of a peer that a certificate does not name, from a heartbeat that the decoder failed on.
abbrev pub stranger : Str → Str → Option (Heartbeat × Bool) → Option PeerEntry
stranger self q none = none
stranger self q (some (hb, true)) = none
stranger self q (some (hb, false)) =
    if same_text hb.node_id q
      && (not (is_empty q) && (not (is_empty hb.addr) && not (same_text q self)))
    then some (record { node_id = q; addr = hb.addr })
    else none

bind_sender_bound :
    (cert q : Str) (hb : Option (Heartbeat × Bool)) (r r' : Replicator)
    → is_empty cert ≡ false
    → q ≢ cert
    → lookup Str-discrete q r.peers ≡ none
    → bind_sender cert hb r ≡ some r'
    → lookup Str-discrete q r'.peers ≡ stranger r.self.node_id q hb
unfolding bind_sender learn_peer add_peer
bind_sender_bound cert q none r r' c n l h = ground arith
bind_sender_bound cert q (some (hb, true)) r r' c n l h = ground (
  arith,
  Option-cases (lookup Str-discrete hb.node_id r.peers),
  lookup-insert Str-discrete q hb.node_id (record { node_id = hb.node_id; addr = hb.addr }) r.peers,
)
bind_sender_bound cert q (some (hb, false)) r r' c n l h = ground (
  arith,
  Option-cases (lookup Str-discrete hb.node_id r.peers),
  lookup-insert Str-discrete q hb.node_id (record { node_id = hb.node_id; addr = hb.addr }) r.peers,
)

bind_sender_dropped :
    (cert self q : Str) (hb : Option (Heartbeat × Bool)) (r : Replicator)
    → bind_sender cert hb r ≡ none
    → stranger self q hb ≡ none
unfolding bind_sender
bind_sender_dropped cert self q none r h = refl
bind_sender_dropped cert self q (some (hb, true)) r h = refl
bind_sender_dropped cert self q (some (hb, false)) r h = ground arith

-- Where the connection has a certificate, a datagram adds a peer that the certificate does not name
-- just where its heartbeat claims that node with an address and the decoder failed on its body; it is
-- then added at that address. A heartbeat that is decoded without an error adds no such peer.
pub on_datagram_bound :
    (unmarshal : Str → Option Envelope) (body : Str → Heartbeat × Bool) (now : ℕ)
    (cert frame q : Str) (r : Replicator)
    → is_empty cert ≡ false
    → q ≢ cert
    → lookup Str-discrete q r.peers ≡ none
    → lookup Str-discrete q (on_datagram unmarshal body now cert frame r).peers
      ≡ stranger r.self.node_id q (read_heartbeat unmarshal body frame r.members.manager.namespace)
unfolding on_datagram
on_datagram_bound unmarshal body now cert frame q r c n l =
    let hb = read_heartbeat unmarshal body frame r.members.manager.namespace in
    elim (Option-cases (bind_sender cert hb r)) [
      | inl e ↦ ground (arith, bind_sender_dropped cert r.self.node_id q hb r e)
      | inr (r', e) ↦ ground (arith, bind_sender_bound cert q hb r r' c n l e)
    ]

-- A node that is added at one address and then at another is still found at the first one after it
-- has been removed.
pub remove_peer-add_peer :
    (id a b : Str) (r : Replicator)
    → a ≢ b
    → (node_id_for_addr a (remove_peer id (add_peer id b (add_peer id a r))) ≡ id)
      × (lookup Str-discrete id (remove_peer id (add_peer id b (add_peer id a r))).peers ≡ none)
unfolding remove_peer add_peer
remove_peer-add_peer id a b r n =
    let r1 = add_peer id a r in
    let r2 = add_peer id b r1 in
    let e : PeerEntry = record { node_id = id; addr = b } in
    ground (
      arith,
      lookup-insert_self Str-discrete id e r1.peers,
      lookup-erase Str-discrete id id r2.peers,
      lookup-erase Str-discrete a b r2.by_addr,
      lookup-insert Str-discrete a b id r1.by_addr,
      lookup-insert_self Str-discrete a id r.by_addr,
    )
