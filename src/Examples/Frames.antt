-- ===== src/Examples/Frames.antt =====
-- The theorem of Websocket/Requests at a frame that is read and one that is not.
use nameko_zh_cn.Base.{codes, true, none, some, [], ◌∷◌, str_eq, if◌then◌else◌}
use nameko_zh_cn.Values.{str}
use nameko_zh_cn.Websocket.{remove_socket}
use nameko_zh_cn.Websocket.Requests.{Loaded, Handlers, gives}
use nameko_zh_cn.Examples.Exceptions.{text_type, exc_text}
use nameko_zh_cn.Examples.Websockets.{ann}

abbrev loaded : Loaded
loaded = record {
  method = some (codes "spam");
  data_ = none;
  correlation_id = some (str (codes "c1"));
}

abbrev handlers : Handlers
unfolding str_eq
handlers = record {
  text_type = text_type;
  exc_text = exc_text;
  loads = λ raw. if str_eq raw (codes "good") then some loaded else none;
  dumps = λ r. true;
  methods = codes "spam" ∷ [];
  handle_message = λ m s d. gives none;
  meanwhile = λ raw. remove_socket ann ∷ [];
}
