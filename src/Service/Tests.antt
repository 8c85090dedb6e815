-- ===== src/Service/Tests.antt =====
-- Requests to a queue whose state is a number, which a call of Update raises.
use wqs.Common.{ℕ, suc, ◌≡◌, ◌≢◌, refl, true, false, none, some, [], ◌∷◌, inl, Bytes, codes, arith}
use wqs.Common.Int.{pos}
use wqs.Common.Eq.{bytes_eq, bytes_key}
use wqs.Go.Strings.{split}
use wqs.Config.{parse_bool, one_of}
use wqs.Engine.{not_found, ok, err}
use wqs.Queue.Config.{GroupConfig}
use wqs.Service.{Queue, Encoding, basic_auth_warp, after_prefix, has_token}
use wqs.Service.Handlers.{queue_handler, msg_handler, msg_receive, action_result, config_updated}
use wqs.Service.Requests.{create_queue_handler, get_proxy_config_by_id_handler, has_empty}
use wqs.Common.{◌==◌, if◌then◌else◌}
use wqs.Common.Dict.{insert}
use wqs.Go.Strconv.{parse_int, parse_uint, scan}
use wqs.Engine.{Result}
use wqs.Log.{Logger, new_logger}
use wqs.Log.Loggers.{Loggers}
use wqs.Metrics.Graphite.{QueryParam}
use wqs.Service.Loggers.{change_logger_handler, change_logger-shown}
use wqs.Service.Shown.{IsApart, loggers_shown}
use wqs.Service.Queries.{
  QueryTexts, MetricsRequest, query, get_metrics_handler, known_action, known_type, IsAnswered,
  get_metrics_handler-IsAnswered,
}
use wqs.Service.Access.{IsAuthorized, basic_auth_warp-IsAuthorized}

abbrev group_g : GroupConfig
group_g = record {
  group = codes "g";
  queue = codes "q";
  write = true;
  read = false;
  url = codes "u";
  ips = codes "1" ∷ [];
}

abbrev counting_queue : Queue ℕ
counting_queue = record {
  create = λ queue idcs n. (suc n, ok tt);
  update = λ queue n. (suc n, ok tt);
  delete = λ queue n. (n, err not_found);
  lookup = λ queue group n. (n, ok []);
  add_group = λ g n. (suc n, ok tt);
  update_group = λ g n. (suc n, ok tt);
  delete_group = λ group queue n. (suc n, ok tt);
  lookup_group = λ group n. (n, ok []);
  get_single_group = λ group queue n. (n, ok group_g);
  send_message = λ queue group value flag n. (suc n, ok (codes "id"));
  recv_message = λ queue group n. (n, ok (codes "id", codes "a\"b"));
  ack_message = λ queue group id n. (suc n, ok tt);
  proxys = λ n. (n, ok []);
  get_proxy_config_by_id = λ id n. (n, err not_found);
  version = codes "1";
}

abbrev plain_encoding : Encoding
plain_encoding = record {
  error_text = λ e. codes "error";
  marshal_queues = λ infos. some (codes "[]");
  marshal_groups = λ infos. none;
  proxys_text = λ d. inl (codes "{}");
  queue_attr = λ body. inl (body ∷ []);
  atoi = λ text. inl (pos 7);
  decode_base64 = λ text. some text;
}

abbrev raise : ℕ → ℕ × Bytes
raise n = queue_handler counting_queue plain_encoding (codes "update") (codes "q") [] n

actions :
    (raise 1 ≡ (2, codes "{\"action\":\"update\",\"result\":true}"))
    × (queue_handler counting_queue plain_encoding (codes "remove") (codes "q") [] 1
        ≡ (1, codes "{\"action\":\"remove\",\"result\":false}"))
    × (queue_handler counting_queue plain_encoding (codes "x") (codes "q") [] 1
        ≡ (1, codes "error, param action=x not support!"))
unfolding queue_handler bytes_eq action_result
actions = (refl, refl, refl)

-- A message with a quotation mark makes no JSON.
received :
    msg_handler counting_queue plain_encoding (codes "receive") (codes "q") (codes "g") [] 1
    ≡ (2, codes "{\"action\":\"receive\",\"msg\":\"a\"b\"}")
unfolding msg_handler msg_receive bytes_eq
received = refl

kept :
    config_updated
      (record {
        group = codes "g";
        queue = codes "q";
        write = codes "?";
        read = codes "1";
        url = [];
        ips = codes "1,2";
      })
      group_g
    ≡ record {
      group = codes "g";
      queue = codes "q";
      write = true;
      read = true;
      url = codes "u";
      ips = codes "1" ∷ codes "2" ∷ [];
    }
unfolding parse_bool one_of bytes_eq split
kept = refl

statuses :
    ((create_queue_handler counting_queue plain_encoding (codes "q") [] 1).1.code ≡ 400)
    × ((create_queue_handler counting_queue plain_encoding (codes "q") (codes "yf") 1).1.code ≡ 201)
    × ((get_proxy_config_by_id_handler counting_queue plain_encoding (codes "7") 1).1.code ≡ 404)
unfolding create_queue_handler get_proxy_config_by_id_handler has_empty
statuses = (refl, refl, refl)

raised : (basic_auth_warp plain_encoding (codes "u:p" ∷ []) [] raise (codes "Basic u:p") 1).0 ≢ 1
unfolding basic_auth_warp after_prefix has_token bytes_eq queue_handler
raised = λ e. omega arith

basic_auth_warp-IsAuthorized_example :
    IsAuthorized plain_encoding (codes "u:p" ∷ []) (codes "Basic u:p")
basic_auth_warp-IsAuthorized_example =
    basic_auth_warp-IsAuthorized plain_encoding (codes "u:p" ∷ []) [] raise (codes "Basic u:p") 1
      raised

abbrev a_level : ℕ → Logger
a_level n = record (new_logger []) { level = n }

-- Three loggers, as initLogger sets them.
abbrev three_loggers : Loggers
three_loggers = record {
  heap = λ a. a_level a;
  ops_logger = λ level. if level == 4 then 4 else 3;
  prof_logger = 1;
}

apart : IsApart three_loggers
apart = record {
  info_debug = λ e. omega (arith, e);
  info_profile = λ e. omega (arith, e);
  debug_profile = λ e. omega (arith, e);
}

abbrev no_text : Bytes → Bytes
no_text text = []

closes_debug :
    (change_logger_handler no_text no_text
      (codes "debug")
      (inl (codes "close"))
      three_loggers).1.code
    ≡ 200
unfolding change_logger_handler bytes_eq
closes_debug = refl

change_logger-shown_example :
    loggers_shown
      (change_logger_handler no_text no_text (codes "debug") (inl (codes "close")) three_loggers).0
    ≡ insert (loggers_shown three_loggers) (codes "debug") (codes "close")
change_logger-shown_example =
    change_logger-shown no_text no_text (codes "debug") (codes "close") three_loggers apart
      closes_debug

abbrev query_texts : QueryTexts
query_texts = record {
  not_support_action = λ text. text;
  not_support_type = λ text. text;
  number_error = λ text e. text;
  error_text = λ e. [];
}

abbrev metrics_request : MetricsRequest
metrics_request = record {
  queue = codes "q";
  group = codes "g";
  action = codes "GET";
  kind = codes "qps";
  start = codes "5";
  end = [];
  step = codes "60";
}

abbrev answer_text : QueryParam → Result Bytes
answer_text param = ok (codes "[]")

answered :
    (get_metrics_handler counting_queue query_texts answer_text metrics_request (pos 100) 1).1.code
    ≡ 200
unfolding get_metrics_handler query parse_int parse_uint scan bytes_eq
answered = refl

get_metrics_handler-IsAnswered_example :
    (known_action (codes "GET") ≡ true)
    × (known_type (codes "qps") ≡ true)
    × ((g : GroupConfig) × (◌≡◌ {A = Result GroupConfig} (ok group_g) (ok g)))
    × IsAnswered counting_queue query_texts answer_text metrics_request (pos 100) (codes "[]")
unfolding get_metrics_handler query parse_int parse_uint scan bytes_eq
get_metrics_handler-IsAnswered_example =
    get_metrics_handler-IsAnswered counting_queue query_texts answer_text metrics_request (pos 100)
      1 answered
