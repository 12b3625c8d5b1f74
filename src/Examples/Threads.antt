-- ===== src/Examples/Threads.antt =====
-- The theorem of Providers.Thread at a queue consumer that two extensions start and that loses its
-- thread.
use nameko_zh_cn.Base.{List, [], ◌∷◌}
use nameko_zh_cn.Eventlet.{EventApi, slot}
use nameko_zh_cn.Providers.Thread.{Ready, Act, starts, consumes, exits, failed}
use nameko_zh_cn.Examples.Exceptions.{no_such_method}

abbrev ready_events : EventApi Ready
ready_events = slot Ready

abbrev acts : List Act
acts = starts ∷ consumes ∷ starts ∷ exits (failed no_such_method) ∷ consumes ∷ []
