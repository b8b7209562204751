-- ===== src/Settings/Scenarios.antt =====
-- A configuration of internal/config from an environment and a file.
use yaralpho.Base.{◌≡◌, refl, none, some, String, Result, ok, All, str_eq, if◌then◌else◌}
use yaralpho.Base.Text.{trim_space}
use yaralpho.Settings.Load.{
  Values, FileRead, contents, loaded, load_json, load_with_path, config_path, resolve,
  mongo_uri_key, mongo_db_key, repo_path_key, required_keys, port_key,
}
use yaralpho.Settings.Resolve.{chosen, resolve-chosen}
use yaralpho.Settings.Required.{IsProvided, load_with_path-chosen}

abbrev environment : Values
environment k =
    if str_eq k mongo_uri_key
    then some " mongodb://db "
    else if str_eq k repo_path_key
    then some "/repo"
    else none

abbrev file : Values
file k =
    if str_eq k mongo_db_key
    then some "yaralpho"
    else if str_eq k mongo_uri_key
    then some "x"
    else none

abbrev read_file : String → FileRead
read_file path = contents "{}"

abbrev unmarshal : String → Result Values
unmarshal text = ok file

resolve-chosen_example :
    resolve environment file mongo_uri_key ≡ chosen environment file mongo_uri_key
resolve-chosen_example = resolve-chosen environment file mongo_uri_key

file-read : load_json read_file unmarshal (config_path environment "") ≡ ok file
unfolding load_json config_path trim_space
file-read = refl

all-there : load_with_path read_file unmarshal environment "" ≡ loaded (resolve environment file)
unfolding load_with_path resolve trim_space
all-there = refl

load_with_path-chosen_example :
    (resolve environment file port_key ≡ chosen environment file port_key)
    × All (IsProvided (resolve environment file)) required_keys
load_with_path-chosen_example =
    load_with_path-chosen read_file unmarshal environment "" file (resolve environment file)
      port_key file-read all-there
