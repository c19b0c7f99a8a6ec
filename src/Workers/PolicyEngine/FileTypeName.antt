-- ===== src/Workers/PolicyEngine/FileTypeName.antt =====
-- workers/policy_engine.py: the file types of the scanner, whose names end in FileType, and the markers of
-- executables.
use Prim.Native.String.compare
use dsx_connect.Prelude.{String, [], ◌∷◌}
use dsx_connect.Prelude.Value.{Value}

-- `name + "FileType"`
abbrev pub file_type_name : String → String
file_type_name String.[] = "FileType"
file_type_name (String.◌∷◌ c s) = String.◌∷◌ c (file_type_name s)
