-- ===== src/Client/Registry.antt =====
-- game/registry.py: the operations of the game's API and where they are.
use placegame_mcp.Prelude.{Bool, true, false, String}

pub data OperationName : Type 0 where
  login bootstrap catalog idle_summary view_sections idle_collect : OperationName
  boss_preview boss_challenge boss_assist : OperationName
  profession_settle profession_enqueue profession_supply_equip : OperationName
  daily_claim quest_claim achievement_claim codex_claim mail_claim : OperationName

pub data Method : Type 0 where
  get post : Method

pub record EndpointSpec : Type 0 where
  pub method : Method
  pub path : String
  pub mutation : Bool

abbrev read : Method → String → EndpointSpec
read method path = record { method = method; path = path; mutation = false }

abbrev change : String → EndpointSpec
change path = record { method = post; path = path; mutation = true }

-- `REGISTRY`
unfoldable pub registry : OperationName → EndpointSpec
registry login = change "/api/auth/login"
registry bootstrap = read get "/api/client/bootstrap"
registry catalog = read get "/api/client/catalog"
registry idle_summary = read get "/api/client/idle-summary"
registry view_sections = read post "/api/client/view-sections"
registry idle_collect = change "/api/battle/idle-collect"
registry boss_preview = read post "/api/boss/preview"
registry boss_challenge = change "/api/boss/challenge"
registry boss_assist = change "/api/boss/assist"
registry profession_settle = change "/api/professions/settle"
registry profession_enqueue = change "/api/professions/queue/enqueue"
registry profession_supply_equip = change "/api/professions/supply/equip"
registry daily_claim = change "/api/daily/claim"
registry quest_claim = change "/api/quests/claim"
registry achievement_claim = change "/api/achievements/claim"
registry codex_claim = change "/api/codex/claim"
registry mail_claim = change "/api/mail/claim"

abbrev pub is_login : OperationName → Bool
is_login login = true
is_login _ = false
