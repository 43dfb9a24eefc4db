-- ===== src/Server/Connect.antt =====
-- `findFreeSlot` and `onTcpConnect`: who is let in, and where.
use sshd.Base.{
  ℕ, zero, suc, ◌≤◌, ◌<◌, ◌≡◌, ◌≢◌, refl, sym, ap, subst, ◌∙◌, ◌↔◌, inl, inr, true, false, Option,
  none, some, Bytes, List, [], ◌∷◌, ◌++◌, codes, replicate, length, Bool-cases, Option-cases, arith,
}
use sshd.Platform.{sent}
use sshd.Session.{Session, version, curve25519_sha256, none_yet, reset}
use sshd.Session.Packet.{send_raw_tcp}
use sshd.Session.Version.{send_our_version}
use sshd.Session.Machine.{session_open}
use sshd.Server.{
  Slot, Server, slot_at, set_slot, find_free_slot, world_of, on_tcp_connect, active_sessions,
}

active_sessions_le : (slots : List Slot) → active_sessions slots ≤ length slots
unfolding active_sessions
active_sessions_le [] = omega arith
active_sessions_le (sl ∷ r) = ground (arith, active_sessions_le r)

find_free_slot-none :
    (slots : List Slot) → find_free_slot slots ≡ none → active_sessions slots ≡ length slots
unfolding find_free_slot active_sessions
find_free_slot-none [] e = refl
find_free_slot-none (sl ∷ r) e = ground (arith, find_free_slot-none r)

some_index : (i j : ℕ) → some i ≡ some j → i ≡ j
some_index i j e = ap (λ (o : Option ℕ). elim o [ none ↦ i | some x ↦ x ]) e

find_free_slot-some :
    (slots : List Slot) (i : ℕ)
    → find_free_slot slots ≡ some i
    → (active_sessions slots < length slots)
      × (sl : Slot) × (slot_at i slots ≡ some sl)
      × (sl.in_use ≡ false)
unfolding find_free_slot active_sessions slot_at
find_free_slot-some [] i e = cc
find_free_slot-some (sl ∷ r) i e = elim (Bool-cases sl.in_use) [
  | inr unused ↦
      let first : 0 ≡ i = some_index 0 i (ground (arith, unused)) in
      (
        ground (arith, unused, active_sessions_le r),
        sl,
        ap (λ k. slot_at k (sl ∷ r)) (sym first),
        unused,
      )
  | inl used ↦ elim (Option-cases (find_free_slot r)) [
    | inl full ↦ absurd (ground (arith, used, full))
    | inr (j, free) ↦
        let (fewer, t, there, unused) = find_free_slot-some r j free in
        let later : suc j ≡ i = some_index (suc j) i (ground (arith, used, free)) in
        (ground (arith, used, fewer), t, ap (λ k. slot_at k (sl ∷ r)) (sym later) ∙ there, unused)
  ]
]

slot_at-set_slot :
    (i : ℕ) (sl new : Slot) (slots : List Slot)
    → slot_at i slots ≡ some sl
    → slot_at i (set_slot i new slots) ≡ some new
unfolding slot_at set_slot
slot_at-set_slot i sl new [] e = cc
slot_at-set_slot zero sl new (t ∷ r) e = refl
slot_at-set_slot (suc i) sl new (t ∷ r) e = slot_at-set_slot i sl new r e

slot_at-set_slot_other :
    (i j : ℕ) (new : Slot) (slots : List Slot)
    → i ≢ j
    → slot_at j (set_slot i new slots) ≡ slot_at j slots
unfolding slot_at set_slot
slot_at-set_slot_other i j new [] d = refl
slot_at-set_slot_other zero zero new (t ∷ r) d = absurd (d refl)
slot_at-set_slot_other zero (suc j) new (t ∷ r) d = refl
slot_at-set_slot_other (suc i) zero new (t ∷ r) d = refl
slot_at-set_slot_other (suc i) (suc j) new (t ∷ r) d =
    slot_at-set_slot_other i j new r (λ e. d (ap suc e))

connect_full :
    (sv : Server) (handle : ℕ)
    → find_free_slot sv.slots ≡ none
    → (on_tcp_connect sv handle).0 ≡ none
unfolding on_tcp_connect
connect_full sv handle full = ground (arith, full)

-- The version line of the server.
abbrev pub version_bytes : Bytes
version_bytes = codes "SSH-2.0-spangap-sshd_0.1" ++ (13 ∷ 10 ∷ [])

-- The slot that a connection gets.
opened_slot : Server → Slot → ℕ → ℕ → Slot
opened_slot sv sl handle i =
    let w = session_open (record (world_of sv sl) { tcp_in = []; backend_in = [] }) handle i in
    record { in_use = true; session = w.session; tcp_in = w.tcp_in; backend_in = w.backend_in }

connect_free :
    (sv : Server) (handle i : ℕ) (sl : Slot)
    → find_free_slot sv.slots ≡ some i
    → slot_at i sv.slots ≡ some sl
    → ((on_tcp_connect sv handle).0 ≡ some i)
      × ((on_tcp_connect sv handle).1.slots ≡ set_slot i (opened_slot sv sl handle i) sv.slots)
      × ((on_tcp_connect sv handle).1.trace ≡ sent (some handle) version_bytes ∷ sv.trace)
unfolding on_tcp_connect opened_slot session_open send_our_version send_raw_tcp reset
connect_free sv handle i sl free found =
    (ground (arith, free, found), ground (arith, free, found), ground (arith, free, found))

-- A session about which nothing is known but its connection, its index and the server's version: no
-- bytes, no names, no keys, no session id, in the clear, at the packets 0, with no user and no channel.
abbrev pub fresh_session : ℕ → ℕ → Session
fresh_session handle i = record {
  slot = some i;
  tcp = some handle;
  phase = version;
  rx_buf = [];
  peer_version = [];
  our_version = codes "SSH-2.0-spangap-sshd_0.1";
  kex_alg = curve25519_sha256;
  peer_kex_init = [];
  our_kex_init = [];
  eph_priv = replicate 32 0;
  eph_pub = replicate 32 0;
  peer_eph_pub = replicate 32 0;
  peer_kex_blob = [];
  our_kex_blob = [];
  shared_k = replicate 32 0;
  session_id = replicate 32 0;
  have_session_id = false;
  c2s_key = replicate 64 0;
  s2c_key = replicate 64 0;
  enc_inbound = false;
  enc_outbound = false;
  seq_in = 0;
  seq_out = 0;
  user = [];
  authed = false;
  peer_channel = 0;
  local_channel = 0;
  peer_window = 0;
  local_window = 0;
  peer_max_packet = 0;
  chan_kind = none_yet;
  backend_handle = none;
  chan_open = false;
  backend_closing = false;
}

-- A slot in use with a fresh session, and nothing that waits.
abbrev pub fresh_slot : ℕ → ℕ → Slot
fresh_slot handle i = record {
  in_use = true;
  session = fresh_session handle i;
  tcp_in = [];
  backend_in = [];
}

opened_slot_lem :
    (sv : Server) (sl : Slot) (handle i : ℕ) → opened_slot sv sl handle i ≡ fresh_slot handle i
unfolding opened_slot session_open send_our_version send_raw_tcp reset
opened_slot_lem sv sl handle i = refl

-- A connection is refused exactly when every slot is in use.
pub on_tcp_connect-none :
    (sv : Server) (handle : ℕ)
    → ((on_tcp_connect sv handle).0 ≡ none) ↔ (active_sessions sv.slots ≡ length sv.slots)
on_tcp_connect-none sv handle = elim (Option-cases (find_free_slot sv.slots)) [
  | inl full ↦ (λ e. find_free_slot-none sv.slots full, λ e. connect_full sv handle full)
  | inr (i, free) ↦
      let (fewer, sl, found, unused) = find_free_slot-some sv.slots i free in
      (
        λ e. absurd (let wrong = sym (connect_free sv handle i sl free found).0 ∙ e in cc),
        λ e. absurd (omega arith),
      )
]

-- The slot `i` went from unused to a fresh session on `handle`, the version line was sent on it, and the
-- slot `j` stayed.
pub record Taken (sv v : Server) (handle i j : ℕ) : Type 0 where
  pub old : Slot
  pub was : slot_at i sv.slots ≡ some old
  pub unused : old.in_use ≡ false
  pub is_now : slot_at i v.slots ≡ some (fresh_slot handle i)
  pub greeted : v.trace ≡ sent (some handle) version_bytes ∷ sv.trace
  pub others : slot_at j v.slots ≡ slot_at j sv.slots

taken :
    (sv : Server) (handle i j : ℕ) (sl : Slot)
    → i ≢ j
    → slot_at i sv.slots ≡ some sl
    → sl.in_use ≡ false
    → (on_tcp_connect sv handle).1.slots ≡ set_slot i (opened_slot sv sl handle i) sv.slots
    → (on_tcp_connect sv handle).1.trace ≡ sent (some handle) version_bytes ∷ sv.trace
    → Taken sv (on_tcp_connect sv handle).1 handle i j
taken sv handle i j sl d found unused slots greeted =
    let new = opened_slot sv sl handle i in
    record {
      old = sl;
      was = found;
      unused = unused;
      is_now =
          ap (slot_at i) slots
          ∙ slot_at-set_slot i sl new sv.slots found
          ∙ ap (λ x. some x) (opened_slot_lem sv sl handle i);
      greeted = greeted;
      others = ap (slot_at j) slots ∙ slot_at-set_slot_other i j new sv.slots d;
    }

-- A connection that is let in gets a slot that was not in use. The slot then holds a fresh session on the
-- connection's handle, with nothing of a session that the slot held before; the version line is sent on
-- that handle; and any other slot `j` is as it was.
pub on_tcp_connect-some :
    (sv : Server) (handle i j : ℕ)
    → (on_tcp_connect sv handle).0 ≡ some i
    → i ≢ j
    → Taken sv (on_tcp_connect sv handle).1 handle i j
on_tcp_connect-some sv handle i j e d = elim (Option-cases (find_free_slot sv.slots)) [
  | inl full ↦ absurd (let wrong = sym (connect_full sv handle full) ∙ e in cc)
  | inr (k, free) ↦
      let (fewer, sl, found, unused) = find_free_slot-some sv.slots k free in
      let (is_k, slots, greeted) = connect_free sv handle k sl free found in
      let same : k ≡ i = some_index k i (sym is_k ∙ e) in
      taken sv handle i j sl d (subst (λ n. slot_at n sv.slots ≡ some sl) same found) unused
        (subst
          (λ n.
            (on_tcp_connect sv handle).1.slots ≡ set_slot n (opened_slot sv sl handle n) sv.slots)
          same slots)
        greeted
]
