-- ===== src/Dispatch/Routes.antt =====
-- The if-chains of the servlets' doRequest: each is the list of the commands that it compares with,
-- in its order, and of the handlers that it calls.
use windnet_game.Prelude.{[], ◌∷◌, String, Map}

pub data LoginHandler : Type 0 where
  on_register : LoginHandler
  on_validate_name : LoginHandler
  on_login : LoginHandler
  on_auto_login : LoginHandler
  on_load_servers : LoginHandler
  on_choose_server : LoginHandler
  on_load_server_towns : LoginHandler
  on_get_recommand_servers : LoginHandler
  on_get_server_info : LoginHandler
  on_get_current_recommand_srv : LoginHandler

abbrev pub login_chain : Map String LoginHandler
login_chain =
    ("Register", on_register)
    ∷ ("ValidataName", on_validate_name)
    ∷ ("Login", on_login)
    ∷ ("AutoLogin", on_auto_login)
    ∷ ("LoadServers", on_load_servers)
    ∷ ("ChooseServer", on_choose_server)
    ∷ ("LoadTowns", on_load_server_towns)
    ∷ ("GetRecommandServers", on_get_recommand_servers)
    ∷ ("GetSimpleServer", on_get_server_info)
    ∷ ("GetRecommandServer", on_get_current_recommand_srv)
    ∷ []

pub data RoleHandler : Type 0 where
  on_create_role : RoleHandler
  on_validate_nick_name : RoleHandler
  on_load_roles : RoleHandler
  on_choose_role : RoleHandler
  on_remove_role : RoleHandler
  on_recovery_role : RoleHandler

abbrev pub role_chain : Map String RoleHandler
role_chain =
    ("CreateRole", on_create_role)
    ∷ ("ValidataNick", on_validate_nick_name)
    ∷ ("LoadRoles", on_load_roles)
    ∷ ("ChooseRole", on_choose_role)
    ∷ ("RemoveRole", on_remove_role)
    ∷ ("RecoveryRole", on_recovery_role)
    ∷ []

pub data SceneHandler : Type 0 where
  on_enter_scene : SceneHandler
  on_avatar_walk : SceneHandler
  on_enter_instance : SceneHandler
  on_notify_monster_dead : SceneHandler
  on_leave_instance_scene : SceneHandler

abbrev pub scene_chain : Map String SceneHandler
scene_chain =
    ("InLobby", on_enter_scene)
    ∷ ("RunInLobby", on_avatar_walk)
    ∷ ("JoinPart", on_enter_instance)
    ∷ ("MonsterDead", on_notify_monster_dead)
    ∷ ("PartLeave", on_leave_instance_scene)
    ∷ []

pub data TaskHandler : Type 0 where
  on_load_tasks : TaskHandler
  on_accept_task : TaskHandler
  on_finish_task : TaskHandler

abbrev pub task_chain : Map String TaskHandler
task_chain =
    ("LoadTasks", on_load_tasks)
    ∷ ("AcceptTask", on_accept_task)
    ∷ ("FinishTask", on_finish_task)
    ∷ []

pub data ItemHandler : Type 0 where
  on_load_items : ItemHandler
  on_buy_item : ItemHandler
  on_append_item : ItemHandler
  on_abandon_item : ItemHandler
  on_equip_item : ItemHandler
  on_un_equip_item : ItemHandler
  on_sort_package : ItemHandler
  on_move_props : ItemHandler
  on_strength_item : ItemHandler
  on_sell_item : ItemHandler
  on_get_equipments : ItemHandler
  on_get_equip_gems : ItemHandler
  on_get_strength_equip_info : ItemHandler

abbrev pub item_chain : Map String ItemHandler
item_chain =
    ("OpenPackage", on_load_items)
    ∷ ("BuyPropFromBodyShop", on_buy_item)
    ∷ ("AppendPackage", on_append_item)
    ∷ ("AbandonProps", on_abandon_item)
    ∷ ("InBody", on_equip_item)
    ∷ ("OutBody", on_un_equip_item)
    ∷ ("SortPackage", on_sort_package)
    ∷ ("MoveProps", on_move_props)
    ∷ ("StrengProps", on_strength_item)
    ∷ ("SaleProps", on_sell_item)
    ∷ ("GetBody", on_get_equipments)
    ∷ ("GetEquipGem", on_get_equip_gems)
    ∷ ("PrevStrengProps", on_get_strength_equip_info)
    ∷ []

pub data GemHandler : Type 0 where
  on_get_equip_gem : GemHandler
  on_equip_gem : GemHandler
  on_un_equip_gem : GemHandler
  on_strength_gem : GemHandler

abbrev pub gem_chain : Map String GemHandler
gem_chain =
    ("GetEquipGem", on_get_equip_gem)
    ∷ ("UpGem", on_equip_gem)
    ∷ ("DownGem", on_un_equip_gem)
    ∷ ("StrengGem", on_strength_gem)
    ∷ []

pub data SkillHandler : Type 0 where
  on_load_skills : SkillHandler
  on_upgrade_skill : SkillHandler

abbrev pub skill_chain : Map String SkillHandler
skill_chain =
    ("SkillInfo", on_load_skills)
    ∷ ("UpSkill", on_upgrade_skill)
    ∷ ("EnableSkill", on_upgrade_skill)
    ∷ ("EquipSkill", on_upgrade_skill)
    ∷ ("UnEquipSkill", on_upgrade_skill)
    ∷ []

pub data SoulHandler : Type 0 where
  on_load_soul_items : SoulHandler
  on_hunt_soul_item : SoulHandler
  on_store_soul : SoulHandler
  on_swallow_all : SoulHandler
  on_swallow_soul_item : SoulHandler
  on_move_soul_item : SoulHandler
  on_buy_soul_item : SoulHandler
  on_equip_soul_item : SoulHandler
  on_get_equipped_souls : SoulHandler

abbrev pub soul_chain : Map String SoulHandler
soul_chain =
    ("SoulMetaInfo", on_load_soul_items)
    ∷ ("LotterySoulMeta", on_hunt_soul_item)
    ∷ ("PacketSoulMeta", on_store_soul)
    ∷ ("SwallowQuickly", on_swallow_all)
    ∷ ("SwallowOne", on_swallow_soul_item)
    ∷ ("SoulMetaMove", on_move_soul_item)
    ∷ ("BuySoulMeta", on_buy_soul_item)
    ∷ ("EquipSoulMeta", on_equip_soul_item)
    ∷ ("EquipSoulMetaInfo", on_get_equipped_souls)
    ∷ []

pub data ChatHandler : Type 0 where
  on_chat : ChatHandler

abbrev pub chat_chain : Map String ChatHandler
chat_chain = ("SendMessage", on_chat) ∷ []

pub data FriendHandler : Type 0 where
  on_add_friend : FriendHandler
  on_add_black_list : FriendHandler
  on_remove_friend : FriendHandler

abbrev pub friend_chain : Map String FriendHandler
friend_chain =
    ("AddFriend", on_add_friend)
    ∷ ("AddStrangers", on_add_black_list)
    ∷ ("RemoveFriend", on_remove_friend)
    ∷ []
