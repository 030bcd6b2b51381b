-- ===== src/Driver/Format/Tests.antt =====
-- A source with a wrong indentation.
use liva_lang.Base.{codes, ◌≡◌, refl}
use liva_lang.Driver.Format.{format_liva_source}
use liva_lang.Driver.Format.Again.{format_liva_source_twice}

two_lines : format_liva_source (codes "a {\nb\n  }\n") ≡ codes "a {\n    b\n}\n"
unfolding format_liva_source codes
two_lines = refl

format_liva_source_twice_example :
    format_liva_source (format_liva_source (codes "a {\nb\n  }\n"))
    ≡ format_liva_source (codes "a {\nb\n  }\n")
format_liva_source_twice_example = format_liva_source_twice (codes "a {\nb\n  }\n")
