-- ===== src/Scanner/Rules/Forms/Cards.antt =====
-- The findings that src/rules/formRules.js creates.
use qa_lab.Base.{Text}
use qa_lab.Scanner.Findings.{Finding, high, info, low, forms}

abbrev pub form001 : Text → Finding
form001 url = record {
  id = "FORM001";
  title = "Input Fields Missing Name Attribute";
  category = forms;
  severity = low;
  confidence = 100;
  page = url;
  recommendation =
      "Add a name attribute to form fields that are submitted using standard HTML forms.";
}

abbrev pub form002 : Text → Finding
form002 url = record {
  id = "FORM002";
  title = "Password Field Missing Autocomplete";
  category = forms;
  severity = low;
  confidence = 100;
  page = url;
  recommendation = "Add autocomplete=\"current-password\" or autocomplete=\"new-password\".";
}

abbrev pub form003 : Text → Finding
form003 url = record {
  id = "FORM003";
  title = "Password Field Has No Enforced Strength Requirement";
  category = forms;
  severity = low;
  confidence = 70;
  page = url;
  recommendation =
      "Add a minlength attribute (and ideally a pattern) to encourage stronger passwords client-side, in addition to server-side validation.";
}

abbrev pub form004 : Text → Finding
form004 url = record {
  id = "FORM004";
  title = "Likely Email Field Not Using type=\"email\"";
  category = forms;
  severity = low;
  confidence = 60;
  page = url;
  recommendation =
      "Use type=\"email\" so browsers provide built-in format validation and the correct mobile keyboard.";
}

abbrev pub form007 : Text → Finding
form007 url = record {
  id = "FORM007";
  title = "File Upload Missing Accept Attribute";
  category = forms;
  severity = low;
  confidence = 100;
  page = url;
  recommendation =
      "Add an accept attribute (e.g. accept=\"image/*\") to guide users and reduce invalid uploads. Always validate file type server-side too.";
}

abbrev pub form005 : Text → Finding
form005 url = record {
  id = "FORM005";
  title = "Sensitive Form Uses GET Method";
  category = forms;
  severity = high;
  confidence = 100;
  page = url;
  recommendation = "Change the form's method to \"post\".";
}

abbrev pub form006 : Text → Finding
form006 url = record {
  id = "FORM006";
  title = "POST Form Missing Apparent CSRF Token";
  category = forms;
  severity = info;
  confidence = 50;
  page = url;
  recommendation =
      "Verify CSRF protection is in place. This is a naming-convention heuristic; some frameworks protect forms without an HTML-visible token (e.g. via headers or cookies), so confirm manually before treating this as confirmed.";
}
