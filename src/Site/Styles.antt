-- ===== src/Site/Styles.antt =====
-- site/src/styles.ts, the style sheet that is put into the page.
use alpenglow.Prelude.{Text, units}

unfoldable pub global_css : Text
global_css =
    units
      "@font-face {\n  font-family: \"Geist Mono\";\n  font-style: normal;\n  font-weight: 400;\n  font-display: swap;\n  src: url(\"/fonts/geist-mono-latin-400-normal.woff2\") format(\"woff2\");\n}\n\n:root {\n  color-scheme: dark;\n  font-family: \"Geist Mono\", ui-monospace, monospace;\n}\n\nhtml,\nbody {\n  margin: 0;\n  height: 100%;\n  overflow: hidden;\n  background: #000;\n  color: #fff;\n  -webkit-font-smoothing: antialiased;\n}\n\n.boot-top-bar {\n  position: fixed;\n  top: clamp(14px, 2.4vw, 30px);\n  right: clamp(14px, 2.4vw, 30px);\n  z-index: 11;\n  display: flex;\n  flex-wrap: wrap;\n  align-items: center;\n  justify-content: flex-end;\n  gap: 0.35rem 0.5rem;\n  font-family: \"Geist Mono\", ui-monospace, monospace;\n  font-size: clamp(0.75rem, 1.6vw, 0.9rem);\n  color: #a1a1aa;\n  pointer-events: auto;\n}\n\n.boot-top-bar a {\n  color: #fafafa;\n  text-decoration: underline;\n  text-underline-offset: 3px;\n}\n\n.boot-top-bar a:hover {\n  color: #fff;\n}\n\n.boot-top-sep {\n  color: #52525b;\n  user-select: none;\n}\n\n.page-shell {\n  position: fixed;\n  inset: 0;\n  width: 100%;\n  height: 100%;\n  overflow: hidden;\n  background: #000;\n  color: #fff;\n}\n\n.hidden {\n  display: none;\n}\n\n.boot-status {\n  pointer-events: none;\n  position: fixed;\n  bottom: clamp(14px, 2.4vw, 30px);\n  left: clamp(14px, 2.4vw, 30px);\n  right: clamp(14px, 2.4vw, 30px);\n  z-index: 10;\n  display: grid;\n  gap: 0.625rem;\n  max-width: 32.5rem;\n  font-family: \"Geist Mono\", ui-monospace, monospace;\n  font-size: 0.75rem;\n  line-height: 1.375;\n}\n\n.boot-status p {\n  margin: 0;\n  color: #fff;\n}\n\n.boot-status meter {\n  height: 0.75rem;\n  width: 100%;\n  accent-color: #fff;\n}\n\n#boot_status[hidden] {\n  display: none !important;\n}\n\n.site-credit {\n  position: fixed;\n  bottom: clamp(14px, 2.4vw, 30px);\n  right: clamp(14px, 2.4vw, 30px);\n  z-index: 11;\n  font-family: \"Geist Mono\", ui-monospace, monospace;\n  font-size: clamp(0.7rem, 1.4vw, 0.8rem);\n  color: #52525b;\n  pointer-events: none;\n}\n\n#xterm_host {\n  position: fixed;\n  inset: 0;\n  box-sizing: border-box;\n  display: flex;\n  flex-direction: column;\n  min-height: 100dvh;\n  min-width: 100vw;\n  padding: clamp(28px, 5vw, 64px);\n  background: #000;\n}\n\n#xterm_host canvas {\n  display: block;\n  width: 100% !important;\n  height: 100% !important;\n}\n\n/* ghostty/xterm hidden input caret at (0,0) */\n#xterm_host textarea {\n  position: fixed !important;\n  left: -10000px !important;\n  top: 0 !important;\n  width: 1px !important;\n  height: 1px !important;\n  opacity: 0 !important;\n  caret-color: transparent !important;\n  overflow: hidden !important;\n  z-index: -1 !important;\n}\n"
