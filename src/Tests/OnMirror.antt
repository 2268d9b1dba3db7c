-- ===== src/Tests/OnMirror.antt =====
-- The bound on the subject at a long one.
use gb_automations.Base.{◌≤◌, String, chars}
use gb_automations.Mirror.{clean_subject}
use gb_automations.Mirror.Bounds.{chars-clean_subject}

abbrev long_subject : String
long_subject =
    " Korreksjoner til leveranse 4, tredje runde, med nye plantegninger og bilder fra byggeplassen "

chars-clean_subject_run : chars (clean_subject long_subject) ≤ 80
chars-clean_subject_run = chars-clean_subject long_subject
