-- ===== src/Server/Startup/Started.antt =====
-- cmd/server/main.go: what main has put together when it calls run.
use lp.Pipeline.Store.{new_store}
use lp.Listener.Manager.{new_manager}
use lp.Server.State.{Server}
use lp.Server.Configuration.{Configuration}
use lp.Server.Loading.{Files, Loaded, load_pipelines}
use lp.Server.Listeners.{Registration, listener_factories, register_configured_listeners}

-- What newServer has loaded and registered
abbrev pub loaded_by : Files → Configuration → Loaded
loaded_by fs cfg = load_pipelines fs cfg.directories new_store 0

abbrev pub registered_by : Configuration → Registration Server
registered_by cfg = register_configured_listeners listener_factories (new_manager 64) cfg.listeners
