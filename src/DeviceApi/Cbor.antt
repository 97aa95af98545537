-- ===== src/DeviceApi/Cbor.antt =====
-- device-api/src/cbor.rs: the bodies of the messages. What the crate minicbor derives for them is not part
-- of the repository: a record `Cbor` holds the decoder of each request, and one encoder of all answers.
use Prim.Native.String.{String}
use rust_ems.Base.{ℕ, List, Bool, Option}
use rust_ems.DeviceApi.Message.{ErrorCode, ValueType}

pub record HelloInfo : Type 0 where
  pub proto_major : ℕ
  pub proto_minor : ℕ
  pub fw_version : String
  pub board : ℕ
  pub mcu : String
  pub cylinders : ℕ
  pub capabilities : ℕ
  pub schema_hash : ℕ
  pub max_payload : ℕ
  pub device_id : List ℕ

pub record PingRequest : Type 0 where
  pub nonce : ℕ

pub record PingResponse : Type 0 where
  pub nonce : ℕ
  pub uptime_ms : ℕ

pub record RebootRequest : Type 0 where
  pub mode : ℕ

pub record EnterBootloaderRequest : Type 0 where
  pub confirm : ℕ

pub record CategoryDesc : Type 0 where
  pub id : ℕ
  pub name : String

pub record GetSchemaInfoResponse : Type 0 where
  pub schema_hash : ℕ
  pub param_count : ℕ
  pub table_count : ℕ
  pub categories : List CategoryDesc

pub record GetCatalogRequest : Type 0 where
  pub page : ℕ

pub record ParamDesc (F : Type 0) : Type 0 where
  pub id : ℕ
  pub key : String
  pub label : String
  pub category : ℕ
  pub vtype : ValueType
  pub unit : String
  pub scale : F
  pub offset : F
  pub min : F
  pub max : F
  pub default : F
  pub digits : ℕ
  pub flags : ℕ
  pub enum_labels : Option (List String)

pub record GetParamCatalogResponse (F : Type 0) : Type 0 where
  pub page : ℕ
  pub total_pages : ℕ
  pub items : List (ParamDesc F)

pub record TableDesc (F : Type 0) : Type 0 where
  pub id : ℕ
  pub key : String
  pub label : String
  pub category : ℕ
  pub dims : ℕ
  pub x_size : ℕ
  pub y_size : ℕ
  pub x_axis_key : String
  pub y_axis_key : String
  pub x_unit : String
  pub y_unit : String
  pub cell_unit : String
  pub cell_min : F
  pub cell_max : F
  pub cell_digits : ℕ

pub record GetTableCatalogResponse (F : Type 0) : Type 0 where
  pub page : ℕ
  pub total_pages : ℕ
  pub items : List (TableDesc F)

pub record ChannelDesc (F : Type 0) : Type 0 where
  pub id : ℕ
  pub key : String
  pub label : String
  pub category : ℕ
  pub vtype : ValueType
  pub unit : String
  pub scale : F
  pub offset : F
  pub digits : ℕ

pub record GetTelemetryCatalogResponse (F : Type 0) : Type 0 where
  pub page : ℕ
  pub total_pages : ℕ
  pub items : List (ChannelDesc F)

pub record ParamGetRequest : Type 0 where
  pub ids : List ℕ

pub record ParamValue : Type 0 where
  pub vtype : ValueType
  pub raw : List ℕ

pub record ParamGetResponse : Type 0 where
  pub values : List ParamValue

pub record ParamSetEntry : Type 0 where
  pub id : ℕ
  pub value : ParamValue

pub record ParamSetRequest : Type 0 where
  pub entries : List ParamSetEntry

pub record ParamSetResult : Type 0 where
  pub id : ℕ
  pub code : ErrorCode

pub record ParamSetResponse : Type 0 where
  pub results : List ParamSetResult

pub record TableGetRequest : Type 0 where
  pub table_id : ℕ

pub record TableGetResponse (F : Type 0) : Type 0 where
  pub x_axis : List F
  pub y_axis : List F
  pub cells : List F

pub record TableSetCellRequest (F : Type 0) : Type 0 where
  pub table_id : ℕ
  pub ix : ℕ
  pub iy : ℕ
  pub value : F

pub record TableSetAxisRequest (F : Type 0) : Type 0 where
  pub table_id : ℕ
  pub axis : ℕ
  pub values : List F

pub record ConfigSaveResponse : Type 0 where
  pub saved_bytes : ℕ
  pub crc : ℕ

pub record ConfigResetDefaultsRequest : Type 0 where
  pub confirm : ℕ

pub record ConfigStatusResponse : Type 0 where
  pub dirty : Bool
  pub ram_crc : ℕ
  pub flash_crc : ℕ

pub record SubscribeRequest : Type 0 where
  pub channels : List ℕ
  pub rate_hz : ℕ

pub record SubscribeResponse : Type 0 where
  pub stream_id : ℕ
  pub layout : List ℕ
  pub rate_hz : ℕ

pub record UnsubscribeRequest : Type 0 where
  pub stream_id : ℕ

pub record ReadOnceRequest : Type 0 where
  pub channels : List ℕ

pub record ReadOnceResponse (F : Type 0) : Type 0 where
  pub values : List F

pub record BenchTestRequest : Type 0 where
  pub target : ℕ
  pub index : ℕ
  pub on_ms : ℕ
  pub off_ms : ℕ
  pub count : ℕ

pub record SetOverrideRequest (F : Type 0) : Type 0 where
  pub target : ℕ
  pub value : F
  pub timeout_ms : ℕ

pub record ClearOverrideRequest : Type 0 where
  pub target : ℕ

pub record CalibrateRequest (F : Type 0) : Type 0 where
  pub routine : ℕ
  pub args : List F

pub record CalibrateResponse (F : Type 0) : Type 0 where
  pub result : List F

pub record FaultEntry : Type 0 where
  pub code : ℕ
  pub severity : ℕ
  pub active : Bool
  pub count : ℕ
  pub first_ts_ms : ℕ
  pub last_ts_ms : ℕ
  pub detail : ℕ

pub record GetFaultsResponse : Type 0 where
  pub faults : List FaultEntry

pub record ClearFaultsRequest : Type 0 where
  pub mask : ℕ

pub record ClearFaultsResponse : Type 0 where
  pub cleared : ℕ

pub record EventBody : Type 0 where
  pub kind : ℕ
  pub ts_ms : ℕ
  pub a : ℕ
  pub b : ℕ

pub record ErrorResponseBody : Type 0 where
  pub code : ErrorCode
  pub detail : ℕ
  pub message : Option String

-- The answers that `encode_to_slice` is called on.
pub data Body (F : Type 0) : Type 0 where
  hello_info : HelloInfo → Body F
  ping_response : PingResponse → Body F
  get_schema_info_response : GetSchemaInfoResponse → Body F
  get_param_catalog_response : GetParamCatalogResponse F → Body F
  get_table_catalog_response : GetTableCatalogResponse F → Body F
  get_telemetry_catalog_response : GetTelemetryCatalogResponse F → Body F
  param_get_response : ParamGetResponse → Body F
  param_set_response : ParamSetResponse → Body F
  table_get_response : TableGetResponse F → Body F
  config_save_response : ConfigSaveResponse → Body F
  config_status_response : ConfigStatusResponse → Body F
  subscribe_response : SubscribeResponse → Body F
  read_once_response : ReadOnceResponse F → Body F
  calibrate_response : CalibrateResponse F → Body F
  get_faults_response : GetFaultsResponse → Body F
  clear_faults_response : ClearFaultsResponse → Body F
  event_body : EventBody → Body F
  error_response_body : ErrorResponseBody → Body F

-- `encode_to_slice` gives the slice back as it leaves it, and the number of bytes written.
pub record Cbor (F : Type 0) : Type 0 where
  pub encode_to_slice : Body F → List ℕ → List ℕ × Option ℕ
  pub decode_ping : List ℕ → Option PingRequest
  pub decode_reboot : List ℕ → Option RebootRequest
  pub decode_enter_bootloader : List ℕ → Option EnterBootloaderRequest
  pub decode_get_catalog : List ℕ → Option GetCatalogRequest
  pub decode_param_get : List ℕ → Option ParamGetRequest
  pub decode_param_set : List ℕ → Option ParamSetRequest
  pub decode_table_get : List ℕ → Option TableGetRequest
  pub decode_table_set_cell : List ℕ → Option (TableSetCellRequest F)
  pub decode_table_set_axis : List ℕ → Option (TableSetAxisRequest F)
  pub decode_config_reset_defaults : List ℕ → Option ConfigResetDefaultsRequest
  pub decode_subscribe : List ℕ → Option SubscribeRequest
  pub decode_unsubscribe : List ℕ → Option UnsubscribeRequest
  pub decode_read_once : List ℕ → Option ReadOnceRequest
  pub decode_bench_test : List ℕ → Option BenchTestRequest
  pub decode_set_override : List ℕ → Option (SetOverrideRequest F)
  pub decode_clear_override : List ℕ → Option ClearOverrideRequest
  pub decode_calibrate : List ℕ → Option (CalibrateRequest F)
  pub decode_clear_faults : List ℕ → Option ClearFaultsRequest
