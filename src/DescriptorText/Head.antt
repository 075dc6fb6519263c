-- ===== src/DescriptorText/Head.antt =====
-- grpcurl-core/src/descriptor_text.rs: the top of a printed file, before its messages.
use grpcurl_rs.Base.{
  ℕ, suc, Text, text, List, [], ◌∷◌, ◌++◌, Bool, Option, none, some, if◌then◌else◌, is_empty, any,
  ◌==◌,
}
use grpcurl_rs.Base.Ints.{ℤ, pos, negsuc, int_eq}
use grpcurl_rs.DescriptorText.{is_some_true, line_if}

-- The options of a file that are read.
pub record FileOptions : Type 0 where
  pub java_package : Option Text
  pub java_outer_classname : Option Text
  pub java_multiple_files : Option Bool
  pub go_package : Option Text
  pub csharp_namespace : Option Text
  pub objc_class_prefix : Option Text
  pub php_namespace : Option Text
  pub ruby_package : Option Text
  pub swift_prefix : Option Text
  pub cc_enable_arenas : Option Bool
  pub optimize_for : Option ℤ

-- The parts of `FileDescriptorProto` that are read.
pub record FileHead : Type 0 where
  pub syntax_name : Option Text
  pub package_name : Option Text
  pub dependency : List Text
  pub public_dependency : List ℤ
  pub weak_dependency : List ℤ
  pub options : Option FileOptions

abbrev pub or_text : Text → Option Text → Text
or_text d none = d
or_text d (some t) = t

abbrev package_lines : Option Text → Text
package_lines none = []
package_lines (some pkg) = if is_empty pkg then [] else text "\npackage " ++ (pkg ++ text ";\n")

-- `contains(&i)`, of the numbers as `usize`: a negative one is no index
abbrev has_index : ℕ → List ℤ → Bool
has_index i deps = any (λ d. int_eq d (pos i)) deps

abbrev import_word : ℕ → FileHead → Text
import_word i head =
    if has_index i head.public_dependency
    then text "import public \""
    else if has_index i head.weak_dependency
    then text "import weak \""
    else text "import \""

unfoldable pub import_lines : FileHead → ℕ → List Text → Text
import_lines head i [] = []
import_lines head i (dep ∷ more) =
    import_word i head ++ (dep ++ (text "\";\n" ++ import_lines head (suc i) more))

imports : FileHead → Text
unfolding import_lines
imports head = if is_empty head.dependency then [] else b'\n' ∷ import_lines head 0 head.dependency

option_line : Text → Option Text → List Text
option_line name none = []
option_line name (some v) = (text "option " ++ (name ++ (text " = \"" ++ (v ++ text "\";")))) ∷ []

flag_line : Text → Option Bool → List Text
flag_line name flag = line_if (is_some_true flag) (text "option " ++ (name ++ text " = true;"))

-- The names of `OptimizeMode`
optimize_name : ℤ → Text
optimize_name (pos n) =
    if n == 1
    then text "SPEED"
    else if n == 2
    then text "CODE_SIZE"
    else if n == 3
    then text "LITE_RUNTIME"
    else []
optimize_name (negsuc n) = []

optimize_line : Option ℤ → List Text
unfolding optimize_name
optimize_line none = []
optimize_line (some v) =
    let name = optimize_name v in
    if is_empty name then [] else (text "option optimize_for = " ++ (name ++ text ";")) ∷ []

unfoldable pub option_lines : Option FileOptions → List Text
unfolding option_line flag_line optimize_line
option_lines none = []
option_lines (some o) =
    option_line (text "java_package") o.java_package
    ++ (option_line (text "java_outer_classname") o.java_outer_classname
        ++ (flag_line (text "java_multiple_files") o.java_multiple_files
            ++ (option_line (text "go_package") o.go_package
                ++ (option_line (text "csharp_namespace") o.csharp_namespace
                    ++ (option_line (text "objc_class_prefix") o.objc_class_prefix
                        ++ (option_line (text "php_namespace") o.php_namespace
                            ++ (option_line (text "ruby_package") o.ruby_package
                                ++ (option_line (text "swift_prefix") o.swift_prefix
                                    ++ (flag_line (text "cc_enable_arenas") o.cc_enable_arenas
                                        ++ optimize_line o.optimize_for)))))))))

abbrev each_line : List Text → Text
each_line [] = []
each_line (line ∷ more) = line ++ b'\n' ∷ each_line more

file_options : FileHead → Text
unfolding option_lines
file_options head =
    let ls = option_lines head.options in if is_empty ls then [] else b'\n' ∷ each_line ls

-- The text before the messages.
unfoldable pub format_head : FileHead → Text
unfolding imports file_options
format_head head =
    text "syntax = \""
    ++ (or_text (text "proto2") head.syntax_name
        ++ (text "\";\n"
            ++ (package_lines head.package_name ++ (imports head ++ file_options head))))
