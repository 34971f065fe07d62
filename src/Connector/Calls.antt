-- ===== src/Connector/Calls.antt =====
-- The functions `kc_...` of kernel/kernel_connector.c, which programs call: each makes one request.
use pl_dos.Base.{ℕ, Bool, Option, List, ℤ}
use pl_dos.Strings.{CString, Buffer}
use pl_dos.Users.{User}
use pl_dos.Filesystem.{Disk}
use pl_dos.System.{M}
use pl_dos.Connector.{Request, kernel_connector_request}

module _ (d : Disk) where
  open d use {Dev}

  abbrev pub kc_clear : M Dev (Unit {0})
  kc_clear = kernel_connector_request d Request.clear

  abbrev pub kc_print : CString → M Dev (Unit {0})
  kc_print text = kernel_connector_request d (Request.print text)

  abbrev pub kc_println : CString → M Dev (Unit {0})
  kc_println text = kernel_connector_request d (Request.println text)

  abbrev pub kc_print_int : ℤ → M Dev (Unit {0})
  kc_print_int value = kernel_connector_request d (Request.print_int value)

  abbrev pub kc_read_char : M Dev ℕ
  kc_read_char = kernel_connector_request d Request.read_char

  abbrev pub kc_strlen : CString → M Dev ℕ
  kc_strlen text = kernel_connector_request d (Request.strlen text)

  abbrev pub kc_strcpy : Buffer → CString → M Dev Buffer
  kc_strcpy dest src = kernel_connector_request d (Request.strcpy dest src)

  abbrev pub kc_strcat : Buffer → CString → M Dev Buffer
  kc_strcat dest src = kernel_connector_request d (Request.strcat dest src)

  abbrev pub kc_strcmp : CString → CString → M Dev ℤ
  kc_strcmp a b = kernel_connector_request d (Request.strcmp a b)

  abbrev pub kc_fs_current_dir : M Dev CString
  kc_fs_current_dir = kernel_connector_request d Request.current_dir

  abbrev pub kc_fs_cd : CString → M Dev ℕ
  kc_fs_cd path = kernel_connector_request d (Request.cd path)

  abbrev pub kc_fs_list : CString → M Dev ℕ
  kc_fs_list path = kernel_connector_request d (Request.list path)

  abbrev pub kc_fs_mkdir : CString → M Dev ℕ
  kc_fs_mkdir path = kernel_connector_request d (Request.mkdir path)

  abbrev pub kc_fs_touch : CString → M Dev ℕ
  kc_fs_touch path = kernel_connector_request d (Request.touch path)

  abbrev pub kc_fs_delete : CString → M Dev ℕ
  kc_fs_delete path = kernel_connector_request d (Request.delete path)

  abbrev pub kc_fs_move : CString → CString → M Dev ℕ
  kc_fs_move src dest = kernel_connector_request d (Request.move src dest)

  abbrev pub kc_fs_copy : CString → CString → M Dev ℕ
  kc_fs_copy src dest = kernel_connector_request d (Request.copy src dest)

  abbrev pub kc_fs_write : CString → List ℕ → ℕ → M Dev ℕ
  kc_fs_write path bytes size = kernel_connector_request d (Request.write path bytes size)

  abbrev pub kc_fs_read : CString → List ℕ → ℕ → M Dev (Option (ℕ × List ℕ))
  kc_fs_read path buffer max_size = kernel_connector_request d (Request.read path buffer max_size)

  abbrev pub kc_fs_exists : CString → M Dev Bool
  kc_fs_exists path = kernel_connector_request d (Request.exists path)

  abbrev pub kc_fs_disk_available : M Dev Bool
  kc_fs_disk_available = kernel_connector_request d Request.disk_available

  abbrev pub kc_fs_disk_enabled : M Dev Bool
  kc_fs_disk_enabled = kernel_connector_request d Request.disk_enabled

  abbrev pub kc_fs_disk_format : M Dev ℕ
  kc_fs_disk_format = kernel_connector_request d Request.disk_format

  abbrev pub kc_fs_disk_save : M Dev ℕ
  kc_fs_disk_save = kernel_connector_request d Request.disk_save

  abbrev pub kc_fs_disk_load : M Dev ℕ
  kc_fs_disk_load = kernel_connector_request d Request.disk_load

  abbrev pub kc_disk_status : M Dev CString
  kc_disk_status = kernel_connector_request d Request.disk_status

  abbrev pub kc_users_add : CString → ℕ → M Dev ℕ
  kc_users_add name admin = kernel_connector_request d (Request.user_add name admin)

  abbrev pub kc_users_remove : CString → M Dev ℕ
  kc_users_remove name = kernel_connector_request d (Request.user_remove name)

  abbrev pub kc_users_login : CString → M Dev ℕ
  kc_users_login name = kernel_connector_request d (Request.user_login name)

  abbrev pub kc_users_logout : M Dev ℕ
  kc_users_logout = kernel_connector_request d Request.user_logout

  abbrev pub kc_users_current_name : M Dev CString
  kc_users_current_name = kernel_connector_request d Request.current_name

  abbrev pub kc_users_current_is_admin : M Dev ℕ
  kc_users_current_is_admin = kernel_connector_request d Request.current_is_admin

  abbrev pub kc_users_count : M Dev ℕ
  kc_users_count = kernel_connector_request d Request.user_count

  abbrev pub kc_users_get : ℕ → User → M Dev (Option User)
  kc_users_get index out = kernel_connector_request d (Request.user_get index out)
