-- ===== src/Proto.antt =====
-- pkg/aria2proto: the names of the methods and of the notifications of aria2.
use arigo.Base.{String}

abbrev pub add_uri : String
add_uri = "aria2.addUri"

abbrev pub add_torrent : String
add_torrent = "aria2.addTorrent"

abbrev pub add_metalink : String
add_metalink = "aria2.addMetalink"

abbrev pub remove : String
remove = "aria2.remove"

abbrev pub force_remove : String
force_remove = "aria2.forceRemove"

abbrev pub pause : String
pause = "aria2.pause"

abbrev pub force_pause : String
force_pause = "aria2.forcePause"

abbrev pub unpause : String
unpause = "aria2.unpause"

abbrev pub tell_status : String
tell_status = "aria2.tellStatus"

abbrev pub get_uris : String
get_uris = "aria2.getUris"

abbrev pub get_files : String
get_files = "aria2.getFiles"

abbrev pub get_peers : String
get_peers = "aria2.getPeers"

abbrev pub get_servers : String
get_servers = "aria2.getServers"

abbrev pub change_position : String
change_position = "aria2.changePosition"

abbrev pub change_uri : String
change_uri = "aria2.changeUri"

abbrev pub get_options : String
get_options = "aria2.getOption"

abbrev pub change_options : String
change_options = "aria2.changeOption"

abbrev pub remove_download_result : String
remove_download_result = "aria2.removeDownloadResult"

abbrev pub pause_all : String
pause_all = "aria2.pauseAll"

abbrev pub force_pause_all : String
force_pause_all = "aria2.forcePauseAll"

abbrev pub unpause_all : String
unpause_all = "aria2.unpauseAll"

abbrev pub tell_active : String
tell_active = "aria2.tellActive"

abbrev pub tell_waiting : String
tell_waiting = "aria2.tellWaiting"

abbrev pub tell_stopped : String
tell_stopped = "aria2.tellStopped"

abbrev pub get_global_options : String
get_global_options = "aria2.getGlobalOption"

abbrev pub change_global_options : String
change_global_options = "aria2.changeGlobalOption"

abbrev pub get_global_stats : String
get_global_stats = "aria2.getGlobalStat"

abbrev pub purge_download_results : String
purge_download_results = "aria2.purgeDownloadResult"

abbrev pub get_version : String
get_version = "aria2.getVersion"

abbrev pub get_session_info : String
get_session_info = "aria2.getSessionInfo"

abbrev pub shutdown : String
shutdown = "aria2.shutdown"

abbrev pub force_shutdown : String
force_shutdown = "aria2.forceShutdown"

abbrev pub save_session : String
save_session = "aria2.saveSession"

abbrev pub multicall : String
multicall = "system.multicall"

abbrev pub list_methods : String
list_methods = "system.listMethods"

abbrev pub list_notifications : String
list_notifications = "system.listNotifications"

abbrev pub on_download_start : String
on_download_start = "aria2.onDownloadStart"

abbrev pub on_download_pause : String
on_download_pause = "aria2.onDownloadPause"

abbrev pub on_download_stop : String
on_download_stop = "aria2.onDownloadStop"

abbrev pub on_download_complete : String
on_download_complete = "aria2.onDownloadComplete"

abbrev pub on_download_error : String
on_download_error = "aria2.onDownloadError"

abbrev pub on_bt_download_complete : String
on_bt_download_complete = "aria2.onBtDownloadComplete"
