-- ===== src/Scanner/Rules/Security/Cards.antt =====
-- The findings that src/rules/securityRules.js creates.
use qa_lab.Base.{Text}
use qa_lab.Scanner.Findings.{Finding, high, info, low, medium, security}

abbrev pub sec005 : Text → Finding
sec005 url = record {
  id = "SEC005";
  title = "Site Not Served Over HTTPS";
  category = security;
  severity = high;
  confidence = 100;
  page = url;
  recommendation = "Serve all traffic over HTTPS and redirect HTTP requests to HTTPS.";
}

abbrev pub sec001 : Text → Finding
sec001 url = record {
  id = "SEC001";
  title = "Missing Content-Security-Policy Header";
  category = security;
  severity = medium;
  confidence = 100;
  page = url;
  recommendation =
      "Add a Content-Security-Policy (CSP) header to reduce XSS and code injection attacks.";
}

abbrev pub sec006 : Text → Finding
sec006 url = record {
  id = "SEC006";
  title = "Permissive Content-Security-Policy";
  category = security;
  severity = medium;
  confidence = 100;
  page = url;
  recommendation =
      "Avoid 'unsafe-inline'/'unsafe-eval' and wildcard sources in your CSP; they significantly weaken its protection.";
}

abbrev pub sec002 : Text → Finding
sec002 url = record {
  id = "SEC002";
  title = "Missing X-Frame-Options Header";
  category = security;
  severity = low;
  confidence = 100;
  page = url;
  recommendation = "Set X-Frame-Options to DENY or SAMEORIGIN to help prevent clickjacking.";
}

abbrev pub sec003 : Text → Finding
sec003 url = record {
  id = "SEC003";
  title = "Missing Strict-Transport-Security Header";
  category = security;
  severity = medium;
  confidence = 100;
  page = url;
  recommendation = "Enable HSTS to force browsers to communicate only over HTTPS.";
}

abbrev pub sec004 : Text → Finding
sec004 url = record {
  id = "SEC004";
  title = "Missing X-Content-Type-Options Header";
  category = security;
  severity = low;
  confidence = 100;
  page = url;
  recommendation = "Set X-Content-Type-Options to 'nosniff' to prevent MIME-type sniffing.";
}

abbrev pub sec007 : Text → Finding
sec007 url = record {
  id = "SEC007";
  title = "Server Header Discloses Version Information";
  category = security;
  severity = info;
  confidence = 100;
  page = url;
  recommendation =
      "Configure your server to omit or generalize the Server header so it doesn't advertise exact software versions to attackers.";
}

abbrev pub sec008 : Text → Finding
sec008 url = record {
  id = "SEC008";
  title = "Cookie Missing Secure or HttpOnly Flag";
  category = security;
  severity = medium;
  confidence = 100;
  page = url;
  recommendation = "Set the Secure and HttpOnly flags on all cookies, especially session cookies.";
}

abbrev pub sec009 : Text → Finding
sec009 url = record {
  id = "SEC009";
  title = "Mixed Content Detected";
  category = security;
  severity = medium;
  confidence = 100;
  page = url;
  recommendation =
      "Load all resources (images, scripts, stylesheets) over HTTPS to avoid mixed content warnings and security risks.";
}

abbrev pub sec010 : Text → Finding
sec010 url = record {
  id = "SEC010";
  title = "Database or Application Error Disclosed";
  category = security;
  severity = high;
  confidence = 100;
  page = url;
  recommendation =
      "Disable verbose error output in production (display_errors off, custom error pages, generic 500 responses) so database schema, file paths, and query structure aren't leaked to visitors.";
}
