-- ===== src/Detect/Names/Agree.antt =====
-- The names and the ports of protocols fit together.
use dpdk_based_nids.Detect.Engine.{port_of, try_port_detection}
use dpdk_based_nids.Detect.Names.{
  app_proto_to_string, app_proto_default_port, all_protos, https_alias, ssl_alias, postgresql_alias,
  check_aliases, search_protos, app_proto_from_string,
}
use dpdk_based_nids.Detect.State.{
  AppProto, unknown, http, tls, dns, smtp, imap, pop3, ftp, ftp_data, ssh, telnet, mysql, pgsql,
  redis, mqtt, amqp, smb, nfs, dhcp, failed,
}
use dpdk_based_nids.Flow.State.{Flow}
use dpdk_based_nids.Prelude.{
  ℕ, ◌+◌, ◌≡◌, refl, ◌∙◌, arith, Bool, true, false, List, [], ◌∷◌, leb, ◌==◌, ◌&&◌, if◌then◌else◌,
}

-- A byte with its letter made small, in ASCII.
abbrev pub lower : ℕ → ℕ
lower b = if leb 65 b && leb b 90 then b + 32 else b

-- Two strings are the same but for the case of letters.
abbrev pub same_but_case : List ℕ → List ℕ → Bool
same_but_case [] [] = true
same_but_case [] (b ∷ t) = false
same_but_case (a ∷ s) [] = false
same_but_case (a ∷ s) (b ∷ t) = (lower a == lower b) && same_but_case s t

search_protos-same_but_case :
    (strcasecmp : List ℕ → List ℕ → Bool)
    → ((s t : List ℕ) → strcasecmp s t ≡ same_but_case s t)
    → (ps : List AppProto) (name : List ℕ)
    → search_protos strcasecmp ps name ≡ search_protos same_but_case ps name
unfolding search_protos check_aliases
search_protos-same_but_case strcasecmp compares [] name =
    rw (compares name https_alias, compares name ssl_alias, compares name postgresql_alias) refl
search_protos-same_but_case strcasecmp compares (p ∷ ps) name =
    rw
      (
        compares name (app_proto_to_string p),
        search_protos-same_but_case strcasecmp compares ps name,
      )
      refl

read_back : (p : AppProto) → app_proto_from_string same_but_case (app_proto_to_string p) ≡ p
unfolding app_proto_from_string search_protos app_proto_to_string
read_back unknown = refl
read_back http = refl
read_back tls = refl
read_back dns = refl
read_back smtp = refl
read_back imap = refl
read_back pop3 = refl
read_back ftp = refl
read_back ftp_data = refl
read_back ssh = refl
read_back telnet = refl
read_back mysql = refl
read_back pgsql = refl
read_back redis = refl
read_back mqtt = refl
read_back amqp = refl
read_back smb = refl
read_back nfs = refl
read_back dhcp = refl
read_back failed = refl

-- If `strcasecmp` compares but for the case of ASCII letters, each protocol's name is read back as
-- the protocol.
pub app_proto_from_string-app_proto_to_string :
    (strcasecmp : List ℕ → List ℕ → Bool) (p : AppProto)
    → ((s t : List ℕ) → strcasecmp s t ≡ same_but_case s t)
    → app_proto_from_string strcasecmp (app_proto_to_string p) ≡ p
unfolding app_proto_from_string
app_proto_from_string-app_proto_to_string strcasecmp p compares =
    search_protos-same_but_case strcasecmp compares all_protos (app_proto_to_string p) ∙ read_back p

-- The protocols that the port hints know.
abbrev pub is_hinted : AppProto → Bool
is_hinted http = true
is_hinted tls = true
is_hinted dns = true
is_hinted ssh = true
is_hinted ftp = true
is_hinted smtp = true
is_hinted mysql = true
is_hinted pgsql = true
is_hinted _ = false

-- A flow to the default port of a protocol that the hints know is taken for that protocol.
pub try_port_detection-app_proto_default_port :
    (p : AppProto) (f : Flow) (toserver : Bool)
    → is_hinted p ≡ true
    → port_of f toserver ≡ app_proto_default_port p
    → try_port_detection f toserver ≡ p
unfolding try_port_detection app_proto_default_port
try_port_detection-app_proto_default_port unknown f toserver h e = absurd (ground (arith, h))
try_port_detection-app_proto_default_port http f toserver h e = rw e refl
try_port_detection-app_proto_default_port tls f toserver h e = rw e refl
try_port_detection-app_proto_default_port dns f toserver h e = rw e refl
try_port_detection-app_proto_default_port smtp f toserver h e = rw e refl
try_port_detection-app_proto_default_port imap f toserver h e = absurd (ground (arith, h))
try_port_detection-app_proto_default_port pop3 f toserver h e = absurd (ground (arith, h))
try_port_detection-app_proto_default_port ftp f toserver h e = rw e refl
try_port_detection-app_proto_default_port ftp_data f toserver h e = absurd (ground (arith, h))
try_port_detection-app_proto_default_port ssh f toserver h e = rw e refl
try_port_detection-app_proto_default_port telnet f toserver h e = absurd (ground (arith, h))
try_port_detection-app_proto_default_port mysql f toserver h e = rw e refl
try_port_detection-app_proto_default_port pgsql f toserver h e = rw e refl
try_port_detection-app_proto_default_port redis f toserver h e = absurd (ground (arith, h))
try_port_detection-app_proto_default_port mqtt f toserver h e = absurd (ground (arith, h))
try_port_detection-app_proto_default_port amqp f toserver h e = absurd (ground (arith, h))
try_port_detection-app_proto_default_port smb f toserver h e = absurd (ground (arith, h))
try_port_detection-app_proto_default_port nfs f toserver h e = absurd (ground (arith, h))
try_port_detection-app_proto_default_port dhcp f toserver h e = absurd (ground (arith, h))
try_port_detection-app_proto_default_port failed f toserver h e = absurd (ground (arith, h))
