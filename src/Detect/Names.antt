-- ===== src/Detect/Names.antt =====
-- `app_proto_to_string`, `app_proto_from_string` and `app_proto_default_port` of src/app_proto.c. The
-- arguments are members of the enumeration, and a name is not NULL. A string is the list of its
-- bytes.
pub mod Agree
use dpdk_based_nids.Detect.State.{
  AppProto, unknown, http, tls, dns, smtp, imap, pop3, ftp, ftp_data, ssh, telnet, mysql, pgsql,
  redis, mqtt, amqp, smb, nfs, dhcp, failed,
}
use dpdk_based_nids.Prelude.{ℕ, Bool, List, [], ◌∷◌, if◌then◌else◌}

-- The names in ASCII.
unfoldable pub app_proto_to_string : AppProto → List ℕ
app_proto_to_string unknown = 117 ∷ 110 ∷ 107 ∷ 110 ∷ 111 ∷ 119 ∷ 110 ∷ []
app_proto_to_string http = 104 ∷ 116 ∷ 116 ∷ 112 ∷ []
app_proto_to_string tls = 116 ∷ 108 ∷ 115 ∷ []
app_proto_to_string dns = 100 ∷ 110 ∷ 115 ∷ []
app_proto_to_string smtp = 115 ∷ 109 ∷ 116 ∷ 112 ∷ []
app_proto_to_string imap = 105 ∷ 109 ∷ 97 ∷ 112 ∷ []
app_proto_to_string pop3 = 112 ∷ 111 ∷ 112 ∷ 51 ∷ []
app_proto_to_string ftp = 102 ∷ 116 ∷ 112 ∷ []
app_proto_to_string ftp_data = 102 ∷ 116 ∷ 112 ∷ 45 ∷ 100 ∷ 97 ∷ 116 ∷ 97 ∷ []
app_proto_to_string ssh = 115 ∷ 115 ∷ 104 ∷ []
app_proto_to_string telnet = 116 ∷ 101 ∷ 108 ∷ 110 ∷ 101 ∷ 116 ∷ []
app_proto_to_string mysql = 109 ∷ 121 ∷ 115 ∷ 113 ∷ 108 ∷ []
app_proto_to_string pgsql = 112 ∷ 103 ∷ 115 ∷ 113 ∷ 108 ∷ []
app_proto_to_string redis = 114 ∷ 101 ∷ 100 ∷ 105 ∷ 115 ∷ []
app_proto_to_string mqtt = 109 ∷ 113 ∷ 116 ∷ 116 ∷ []
app_proto_to_string amqp = 97 ∷ 109 ∷ 113 ∷ 112 ∷ []
app_proto_to_string smb = 115 ∷ 109 ∷ 98 ∷ []
app_proto_to_string nfs = 110 ∷ 102 ∷ 115 ∷ []
app_proto_to_string dhcp = 100 ∷ 104 ∷ 99 ∷ 112 ∷ []
app_proto_to_string failed = 102 ∷ 97 ∷ 105 ∷ 108 ∷ 101 ∷ 100 ∷ []

unfoldable pub app_proto_default_port : AppProto → ℕ
app_proto_default_port unknown = 0
app_proto_default_port http = 80
app_proto_default_port tls = 443
app_proto_default_port dns = 53
app_proto_default_port smtp = 25
app_proto_default_port imap = 143
app_proto_default_port pop3 = 110
app_proto_default_port ftp = 21
app_proto_default_port ftp_data = 20
app_proto_default_port ssh = 22
app_proto_default_port telnet = 23
app_proto_default_port mysql = 3306
app_proto_default_port pgsql = 5432
app_proto_default_port redis = 6379
app_proto_default_port mqtt = 1883
app_proto_default_port amqp = 5672
app_proto_default_port smb = 445
app_proto_default_port nfs = 2049
app_proto_default_port dhcp = 67
app_proto_default_port failed = 0

-- The members of the enumeration in their order.
abbrev pub all_protos : List AppProto
all_protos =
    unknown ∷ http ∷ tls ∷ dns ∷ smtp ∷ imap ∷ pop3 ∷ ftp ∷ ftp_data ∷ ssh ∷ telnet ∷ mysql ∷ pgsql
    ∷ redis ∷ mqtt ∷ amqp ∷ smb ∷ nfs ∷ dhcp ∷ failed ∷ []

-- "https", "ssl" and "postgresql" in ASCII.
abbrev pub https_alias : List ℕ
https_alias = 104 ∷ 116 ∷ 116 ∷ 112 ∷ 115 ∷ []

abbrev pub ssl_alias : List ℕ
ssl_alias = 115 ∷ 115 ∷ 108 ∷ []

abbrev pub postgresql_alias : List ℕ
postgresql_alias = 112 ∷ 111 ∷ 115 ∷ 116 ∷ 103 ∷ 114 ∷ 101 ∷ 115 ∷ 113 ∷ 108 ∷ []

-- `strcasecmp s t` stands for `strcasecmp(s, t) == 0`.
module _ (strcasecmp : List ℕ → List ℕ → Bool) where
  unfoldable pub check_aliases : List ℕ → AppProto
  check_aliases name =
      if strcasecmp name https_alias
      then tls
      else if strcasecmp name ssl_alias
      then tls
      else if strcasecmp name postgresql_alias
      then pgsql
      else unknown

  -- The linear search.
  unfoldable pub search_protos : List AppProto → List ℕ → AppProto
  search_protos [] name = check_aliases name
  search_protos (p ∷ ps) name =
      if strcasecmp name (app_proto_to_string p) then p else search_protos ps name

  unfoldable pub app_proto_from_string : List ℕ → AppProto
  app_proto_from_string name = search_protos all_protos name
