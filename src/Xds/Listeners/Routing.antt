-- ===== src/Xds/Listeners/Routing.antt =====
-- Where a sidecar with the built listener sends a connection, against what the filters ask for.
use lite_mesh.Base.{
  ℕ, zero, suc, ◌+◌, Text, List, [], ◌∷◌, ◌++◌, append-nil, append_assoc, map, Option, none, some,
  ◌≡◌, refl, sym, ap, ◌∙◌, ◌==◌, if◌then◌else◌, get_elem?, arith,
}
use mathlib.Core.Option
use lite_mesh.Apis.{Filter, Http}
use lite_mesh.Xds.Envoy.{
  VirtualHost, Message, tcp_proxy, file_access_log, http_connection_manager, FilterChain, Listener,
}
use lite_mesh.Xds.Listeners.{
  Jsonpb, vhost, vhosts_loop, black_hole, message_to_struct, chain_filters, chain, chains_loop,
  black_hole_chain, build_listeners,
}

-- A connection goes to a cluster, is answered by the sidecar itself (no virtual host), or has no
-- filter chain or no readable configuration.
pub data Target : Type 0 where
  to_cluster : Text → Target
  no_host : Target
  refused : Target

-- The filter for a port is the first one that names it.
abbrev pub filter_for : ℕ → List Filter → Option Filter
filter_for port [] = none
filter_for port (f ∷ fs) = if f.port == port then some f else filter_for port fs

abbrev pub http_target : Option Http → Target
http_target none = no_host
http_target (some h) = to_cluster h.cluster

-- The one route of a virtual host matches every path.
abbrev pub vhost_target : Option VirtualHost → Target
vhost_target none = no_host
vhost_target (some v) = elim v.routes [ [] ↦ no_host | r ∷ rs ↦ to_cluster r.cluster ]

abbrev elem_at : {A : Type 0} → Option ℕ → List A → Option A
elem_at none xs = none
elem_at (some i) xs = get_elem? xs i

-- `pick` says which of several sets of domains answers for the requested host.
module _ (pick : List (List Text) → Option ℕ) where
  -- What the filters ask for: the entry for the host if there are HTTP entries, else the TCP cluster,
  -- and the black hole for a port that no filter names.
  abbrev pub wanted_http : List Http → Text → Target
  wanted_http [] tcp = to_cluster tcp
  wanted_http (h ∷ hs) tcp = http_target (elem_at (pick (map (λ v. v.domains) (h ∷ hs))) (h ∷ hs))

  abbrev pub wanted_filter : Option Filter → Target
  wanted_filter none = to_cluster black_hole
  wanted_filter (some f) = wanted_http f.http f.tcp.cluster

  abbrev pub wanted : ℕ → List Filter → Target
  wanted port filters = wanted_filter (filter_for port filters)

  module _ {S : Type 0} (decode : S → Message S) where
    -- How Envoy reads a listener: a chain that names the destination port is preferred to one that
    -- names none, and earlier chains to later ones.
    abbrev pub named_chain : ℕ → List (FilterChain S) → Option (FilterChain S)
    named_chain port [] = none
    named_chain port (c ∷ cs) = elim c.destination_port [
      | none ↦ named_chain port cs
      | some p ↦ if p == port then some c else named_chain port cs
    ]

    abbrev pub default_chain : List (FilterChain S) → Option (FilterChain S)
    default_chain [] = none
    default_chain (c ∷ cs) = elim c.destination_port [ none ↦ some c | some p ↦ default_chain cs ]

    abbrev message_target : Message S → Target
    message_target (tcp_proxy stat_prefix cluster) = to_cluster cluster
    message_target (file_access_log path) = refused
    message_target (http_connection_manager m) =
        vhost_target (elem_at (pick (map (λ v. v.domains) m.virtual_hosts)) m.virtual_hosts)

    abbrev struct_target : Option S → Target
    struct_target none = refused
    struct_target (some s) = message_target (decode s)

    abbrev chain_target : Option (FilterChain S) → Option (FilterChain S) → Target
    chain_target none none = refused
    chain_target none (some c) = elim c.filters [ [] ↦ refused | f ∷ fs ↦ struct_target f.config ]
    chain_target (some c) d = elim c.filters [ [] ↦ refused | f ∷ fs ↦ struct_target f.config ]

    -- The target of a connection to the port that the listener at hand was redirected from.
    abbrev pub routed : ℕ → List (Listener S) → Target
    routed port [] = refused
    routed port (l ∷ ls) =
        chain_target (named_chain port l.filter_chains) (default_chain l.filter_chains)

-- The codec packs each message into a structure that reads back as the message.
abbrev pub IsFaithful : {S B : Type 0} → Jsonpb S B → (S → Message S) → Type 0
IsFaithful {S} jsonpb decode =
    (m : Message S) → (s : S) × (message_to_struct jsonpb m ≡ some s) × (decode s ≡ m)

-- The virtual hosts of the entries, numbered from `i`.
abbrev pub numbered : ℕ → ℕ → List Http → List VirtualHost
numbered port i [] = []
numbered port i (v ∷ vs) = vhost port i v ∷ numbered port (i + 1) vs

pub vhosts_loop-numbered :
    (port i : ℕ) (vs : List Http) (acc : List VirtualHost)
    → vhosts_loop port i vs acc ≡ acc ++ numbered port i vs
unfolding vhosts_loop
vhosts_loop-numbered port i [] acc = sym (append-nil acc)
vhosts_loop-numbered port i (v ∷ vs) acc = simp (vhosts_loop-numbered port (i + 1) vs, append_assoc)

domains-numbered :
    (port i : ℕ) (vs : List Http)
    → map (λ v. v.domains) (numbered port i vs) ≡ map (λ v. v.domains) vs
domains-numbered port i [] = refl
domains-numbered port i (v ∷ vs) = ap (◌∷◌ v.domains) (domains-numbered port (i + 1) vs)

target-numbered :
    (port i : ℕ) (vs : List Http) (j : ℕ)
    → vhost_target (get_elem? (numbered port i vs) j) ≡ http_target (get_elem? vs j)
target-numbered port i [] j = refl
target-numbered port i (v ∷ vs) zero = refl
target-numbered port i (v ∷ vs) (suc j) = target-numbered port (i + 1) vs j

module _ {S B : Type 0} (jsonpb : Jsonpb S B) where
  chains_loop-map :
      (fs : List Filter) (acc : List (FilterChain S))
      → chains_loop jsonpb fs acc ≡ acc ++ map (chain jsonpb) fs
  unfolding chains_loop
  chains_loop-map [] acc = sym (append-nil acc)
  chains_loop-map (f ∷ fs) acc = simp (chains_loop-map fs, append_assoc)

  module _ (decode : S → Message S) (faithful : IsFaithful jsonpb decode)
      (pick : List (List Text) → Option ℕ) where
    message-target :
        (m : Message S)
        → struct_target pick decode (message_to_struct jsonpb m) ≡ message_target pick decode m
    message-target m = let (s, e, d) = faithful m in rw (e, d)

    elem-target :
        (port : ℕ) (o : Option ℕ) (vs : List Http)
        → vhost_target (elem_at o (numbered port 0 vs)) ≡ http_target (elem_at o vs)
    elem-target port none vs = refl
    elem-target port (some j) vs = target-numbered port 0 vs j

    chain-target :
        (f : Filter) (hs : List Http)
        → chain_target pick decode
            (some (record { destination_port = some f.port; filters = chain_filters jsonpb f hs }))
            none
          ≡ wanted_http pick hs f.tcp.cluster
    unfolding chain_filters
    chain-target f [] = message-target _
    chain-target f (h ∷ hs) =
        message-target _
        ∙ rw
            (vhosts_loop-numbered f.port 1 hs (vhost f.port 0 h ∷ []), domains-numbered f.port 1 hs)
            (elem-target f.port (pick (map (λ v. v.domains) (h ∷ hs))) (h ∷ hs))

    named-chain :
        (port : ℕ) (fs : List Filter)
        → named_chain pick decode port (map (chain jsonpb) fs)
          ≡ Option.map (chain jsonpb) (filter_for port fs)
    named-chain port [] = refl
    named-chain port (f ∷ fs) = ground (arith, named-chain port fs)

    found-target :
        (o : Option Filter)
        → chain_target pick decode (Option.map (chain jsonpb) o) (some (black_hole_chain jsonpb))
          ≡ wanted_filter pick o
    found-target none = message-target _
    found-target (some f) = chain-target f f.http

    -- A sidecar with the built listener sends a connection where the filters ask: to the entry for
    -- the host, or to the TCP cluster, of the first filter that names the port, and to the black hole
    -- if no filter names it. The codec is assumed to be faithful; which set of domains answers for a
    -- host is left open.
    pub routed-build_listeners :
        (port : ℕ) (filters : List Filter)
        → routed pick decode port (build_listeners jsonpb filters) ≡ wanted pick port filters
    unfolding build_listeners
    routed-build_listeners port filters =
        rw (chains_loop-map filters (black_hole_chain jsonpb ∷ []), named-chain port filters)
          (found-target (filter_for port filters))
