-- ===== src/Tests/Codec.antt =====
-- A codec that packs every message faithfully: the buffer holds the message, and the structure keeps
-- its fields.
use lite_mesh.Base.{Text, List, [], ◌∷◌, none, some, ◌≡◌, refl, arith}
use lite_mesh.Xds.Envoy.{
  VirtualHost, AccessLog, Message, tcp_proxy, file_access_log, http_connection_manager,
}
use lite_mesh.Xds.Listeners.{Jsonpb, message_to_struct}
use lite_mesh.Xds.Listeners.Routing.{IsFaithful}

mutual
  pub data Struct : Type 0 where
    tcp : (stat_prefix cluster : Text) → Struct
    file : Text → Struct
    http : Text → Logs → Text → List VirtualHost → List Text → Struct

  pub data Logs : Type 0 where
    no_logs : Logs
    bare_log : Text → Logs → Logs
    full_log : Text → Struct → Logs → Logs

pack_log : AccessLog Struct → Logs → Logs
pack_log l rest = elim l.config [ none ↦ bare_log l.name rest | some s ↦ full_log l.name s rest ]

pub pack_logs : List (AccessLog Struct) → Logs
unfolding pack_log
pack_logs [] = no_logs
pack_logs (l ∷ ls) = pack_log l (pack_logs ls)

pub pack : Message Struct → Struct
unfolding pack_logs
pack (tcp_proxy p c) = tcp p c
pack (file_access_log p) = file p
pack (http_connection_manager m) =
    http m.stat_prefix (pack_logs m.access_log) m.route_config_name m.virtual_hosts m.http_filters

unpack_logs : Logs → List (AccessLog Struct)
unpack_logs no_logs = []
unpack_logs (bare_log n ls) = record { name = n; config = none } ∷ unpack_logs ls
unpack_logs (full_log n s ls) = record { name = n; config = some s } ∷ unpack_logs ls

pub unpack : Struct → Message Struct
unfolding unpack_logs
unpack (tcp p c) = tcp_proxy p c
unpack (file p) = file_access_log p
unpack (http p ls n vs fs) = http_connection_manager (record {
  stat_prefix = p;
  access_log = unpack_logs ls;
  route_config_name = n;
  virtual_hosts = vs;
  http_filters = fs;
})

unpack_logs-pack_logs : (ls : List (AccessLog Struct)) → unpack_logs (pack_logs ls) ≡ ls
unfolding unpack_logs pack_logs
unpack_logs-pack_logs [] = refl
unpack_logs-pack_logs (l ∷ ls) = ground (arith, unpack_logs-pack_logs ls)

unpack-pack : (m : Message Struct) → unpack (pack m) ≡ m
unfolding unpack pack
unpack-pack (tcp_proxy p c) = refl
unpack-pack (file_access_log p) = refl
unpack-pack (http_connection_manager m) = ground (arith, unpack_logs-pack_logs m.access_log)

abbrev pub codec : Jsonpb Struct (Message Struct)
codec = record { marshal = some; unmarshal = λ m. some (pack m) }

pub codec-IsFaithful : IsFaithful codec unpack
unfolding message_to_struct
codec-IsFaithful m = (pack m, refl, unpack-pack m)
