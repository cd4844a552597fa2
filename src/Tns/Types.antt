-- ===== src/Tns/Types.antt =====
-- What the handlers share: the enumerations of src/oracle_tns.h, the values of a call, and the
-- lines that printf writes, each with its arguments.
use tnsparser.Base.{ℕ, Option, some, List}
use tnsparser.Session.{Direction, TnsSession}

-- enum error_code: 0, 1, 2 and 3.
pub data ErrorCode : Type 0 where
  code_success code_pkt_len code_pkt_type code_data_id : ErrorCode

-- enum Pkt_type
abbrev pub tns_type_connect : ℕ
tns_type_connect = 1

abbrev pub tns_type_accept : ℕ
tns_type_accept = 2

abbrev pub tns_type_ack : ℕ
tns_type_ack = 3

abbrev pub tns_type_refuse : ℕ
tns_type_refuse = 4

abbrev pub tns_type_redirect : ℕ
tns_type_redirect = 5

abbrev pub tns_type_data : ℕ
tns_type_data = 6

abbrev pub tns_type_null : ℕ
tns_type_null = 7

abbrev pub tns_type_unknown1 : ℕ
tns_type_unknown1 = 8

abbrev pub tns_type_abort : ℕ
tns_type_abort = 9

abbrev pub tns_type_unknown2 : ℕ
tns_type_unknown2 = 10

abbrev pub tns_type_resend : ℕ
tns_type_resend = 11

abbrev pub tns_type_marker : ℕ
tns_type_marker = 12

abbrev pub tns_type_unknown3 : ℕ
tns_type_unknown3 = 13

abbrev pub tns_type_unknown4 : ℕ
tns_type_unknown4 = 14

-- enum Data_handle_version
abbrev pub tns_313 : ℕ
tns_313 = 313

abbrev pub tns_314 : ℕ
tns_314 = 314

-- enum Data_id_ver313
abbrev pub tns_data_id_sns : ℕ
tns_data_id_sns = 0xde

abbrev pub tns_data_id_sp : ℕ
tns_data_id_sp = 0x01

abbrev pub tns_data_id_oci : ℕ
tns_data_id_oci = 0x03

abbrev pub tns_data_id_rs : ℕ
tns_data_id_rs = 0x04

-- enum Data_id_ver314
abbrev pub tns_314_data_id_sns : ℕ
tns_314_data_id_sns = 0xde

abbrev pub tns_314_data_id_sp : ℕ
tns_314_data_id_sp = 0x01

abbrev pub tns_314_data_id_oci : ℕ
tns_314_data_id_oci = 0x03

abbrev pub tns_314_data_id_rs : ℕ
tns_314_data_id_rs = 0x04

-- The text, direction and version that start a line.
pub record Header : Type 0 where
  pub desc : List ℕ
  pub dir : Direction
  pub version : ℕ

abbrev pub header : TnsSession → Header
header sess = record { desc = sess.cur_sess_desc; dir = sess.cur_dir; version = sess.version }

pub data Line : Type 0 where
  return_status sql : Header → ℕ → List ℕ → Line
  loging_on : Header → Line
  client_platform server_banner : Header → List ℕ → Line
  client_version server_version : Header → ℕ → ℕ → ℕ → ℕ → Line
  plain_status query_sql : ℕ → List ℕ → Line
  plain_client_platform plain_server_platform : List ℕ → Line
  plain_client_version plain_server_version : ℕ → ℕ → ℕ → ℕ → Line
  connect_line : List ℕ → Direction → ℕ → Line
  service_name host user : List ℕ → Line

pub record Done : Type 0 where
  pub code : ErrorCode
  pub sess : TnsSession
  pub out : List Line

-- The label `err` reached with the code that it started with.
abbrev pub success : TnsSession → List Line → Option Done
success sess out = some (record { code = code_success; sess = sess; out = out })
