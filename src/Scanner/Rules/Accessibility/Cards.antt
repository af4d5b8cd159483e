-- ===== src/Scanner/Rules/Accessibility/Cards.antt =====
-- The findings that src/rules/accessibilityRules.js creates.
use qa_lab.Base.{Text}
use qa_lab.Scanner.Findings.{Finding, low, medium, accessibility}

abbrev pub acc001 : Text → Finding
acc001 url = record {
  id = "ACC001";
  title = "Images Missing Alt Attributes";
  category = accessibility;
  severity = low;
  confidence = 100;
  page = url;
  recommendation =
      "Provide meaningful alt text for every informative image. Use an empty alt attribute (alt=\"\") only for decorative images.";
}

abbrev pub acc002 : Text → Finding
acc002 url = record {
  id = "ACC002";
  title = "Heading Level Skipped";
  category = accessibility;
  severity = low;
  confidence = 100;
  page = url;
  recommendation =
      "Don't skip heading levels. Screen reader users rely on heading order to understand page structure.";
}

abbrev pub acc003 : Text → Finding
acc003 url = record {
  id = "ACC003";
  title = "Form Field Missing Accessible Label";
  category = accessibility;
  severity = medium;
  confidence = 100;
  page = url;
  recommendation =
      "Associate every form field with a <label for=\"...\">, or add an aria-label/aria-labelledby attribute.";
}

abbrev pub acc004 : Text → Finding
acc004 url = record {
  id = "ACC004";
  title = "Missing Language Attribute";
  category = accessibility;
  severity = low;
  confidence = 100;
  page = url;
  recommendation =
      "Add a lang attribute to the <html> tag (e.g. <html lang=\"en\">) so screen readers use the correct pronunciation.";
}
